-- ===== src/Util/Nonce/Bounds.antt =====
-- How many ids a Nonce keeps, and for how long an id is remembered.
use ra_common_cpp.Base.{
  ℕ, zero, suc, ◌+◌, ◌-◌, ◌≤◌, ◌<◌, ◌≡◌, refl, ap, ◌∙◌, inl, inr, true, false, ◌||◌, List, [], ◌∷◌,
  ◌++◌, Bytes, length, length-append, append_assoc, ◌*◌, leb, leb→le, le→leb, ◌==◌, list_eq_iff,
  Bool-cases, arith,
}
use ra_common_cpp.Util.Nonce.{
  Nonce, contains, erase, evict, to_prune, prune, continue_on, run, size,
}
use ra_common_cpp.Util.Nonce.Window.{
  IsConsistent, Distinct, contains-append, continue_on-contains, continue_on-IsConsistent,
}

length-evict :
    (k : ℕ) (seen order : List Bytes) (m p : ℕ)
    → length
        (evict k (record { seen = seen; order = order; max_size = m; prune_percent = p })).order
      ≡ length order - k
unfolding evict
length-evict zero seen order m p = omega arith
length-evict (suc k) seen [] m p = omega arith
length-evict (suc k) seen (oldest ∷ rest) m p =
    omega (arith, length-evict k (erase oldest seen) rest m p)

size-prune :
    (n : Nonce)
    → ((n.prune_percent == 100) || leb 1 (to_prune n)) ≡ true
    → size n ≤ suc n.max_size
    → size (prune n) ≤ n.max_size
unfolding prune size
size-prune n active h = elim (Bool-cases (leb (length n.order) n.max_size)) [
  | inl e ↦ rw e (leb→le (length n.order) n.max_size e)
  | inr e ↦ elim (Bool-cases (n.prune_percent == 100)) [
    | inl f ↦ rw (e, f) (omega arith)
    | inr f ↦
        rw (e, f)
          (ground (arith, length-evict (to_prune n) n.seen n.order n.max_size n.prune_percent, f))
  ]
]

size-continue_on : (n : Nonce) (id : Bytes) → size (continue_on n id).0 ≤ suc (size (prune n))
unfolding continue_on size
size-continue_on n id = elim (Bool-cases (contains id (prune n).seen)) [
  | inl e ↦ rw e (omega arith)
  | inr e ↦ rw e (omega (arith, length-append (prune n).order (id ∷ [])))
]

-- If prune_percent is 100 or to_prune is at least 1, then a Nonce of at most max_size + 1 ids has
-- at most max_size + 1 ids after ContinueOn.
pub size_bounded :
    (n : Nonce) (id : Bytes)
    → ((n.prune_percent == 100) || leb 1 (to_prune n)) ≡ true
    → size n ≤ suc n.max_size
    → size (continue_on n id).0 ≤ suc n.max_size
size_bounded n id active h = omega (arith, size-continue_on n id, size-prune n active h)

prune_within : (n : Nonce) → size n ≤ n.max_size → prune n ≡ n
unfolding prune size
prune_within n h = rw (le→leb (length n.order) n.max_size h) refl

prune_idle : (n : Nonce) → (n.prune_percent == 100) ≡ false → to_prune n ≡ 0 → prune n ≡ n
unfolding prune evict
prune_idle n p z = elim (Bool-cases (leb (length n.order) n.max_size)) [
  | inl e ↦ rw e refl
  | inr e ↦ rw (e, p, z) refl
]

continue_on-order :
    (n : Nonce) (id j : Bytes)
    → prune n ≡ n
    → contains j n.order ≡ true
    → contains j (continue_on n id).0.order ≡ true
unfolding continue_on
continue_on-order n id j e c = elim (Bool-cases (contains id (prune n).seen)) [
  | inl f ↦ rw (f, e) c
  | inr f ↦ rw (f, e) (ground (arith, contains-append j n.order (id ∷ []), c))
]

continue_on-max_size :
    (n : Nonce) (id : Bytes) → prune n ≡ n → (continue_on n id).0.max_size ≡ n.max_size
unfolding continue_on
continue_on-max_size n id e = elim (Bool-cases (contains id (prune n).seen)) [
  | inl f ↦ rw (f, e) refl
  | inr f ↦ rw (f, e) refl
]

size-within : (n : Nonce) (id : Bytes) → prune n ≡ n → size (continue_on n id).0 ≤ suc (size n)
size-within n id e = omega (arith, size-continue_on n id, ap size e)

-- An id in the window of a consistent Nonce is refused after any further calls as long as the
-- window and these calls number at most max_size.
pub continue_on-run :
    (n : Nonce) (id : Bytes) (ids : List Bytes)
    → IsConsistent n
    → contains id n.order ≡ true
    → size n + length ids ≤ n.max_size
    → (continue_on (run n ids) id).1 ≡ false
unfolding run
continue_on-run n id [] good c h =
    let e : prune n ≡ n = prune_within n (omega arith) in
    let k : contains id (prune n).order ≡ true = rw e c in rw k at (continue_on-contains n id good)
continue_on-run n id (x ∷ ids) good c h =
    let e = prune_within n (omega arith) in
    let m = continue_on-max_size n x e in
    let grown = size-within n x e in
    continue_on-run (continue_on n x).0 id ids (continue_on-IsConsistent n x good)
      (continue_on-order n x id e c) (omega (arith, m, grown, h))

to_prune_zero : (n : Nonce) → n.max_size * n.prune_percent < 100 → to_prune n ≡ 0
unfolding to_prune
to_prune_zero n h = omega arith

continue_on_new :
    (n : Nonce) (id : Bytes)
    → prune n ≡ n
    → contains id n.seen ≡ false
    → (continue_on n id).0 ≡ record n { seen = id ∷ n.seen; order = n.order ++ id ∷ [] }
unfolding continue_on
continue_on_new n id e c = rw (e, c) refl

Distinct-middle :
    (xs : List Bytes) (y : Bytes) (ys : List Bytes)
    → Distinct (xs ++ y ∷ ys)
    → contains y xs ≡ false
unfolding contains
Distinct-middle [] y ys d = refl
Distinct-middle (x ∷ xs) y ys d = ground (
  arith,
  contains-append x xs (y ∷ ys),
  d.0,
  list_eq_iff x y,
  list_eq_iff y x,
  Distinct-middle xs y ys d.1,
)

-- If prune_percent is not 100 and max_size * prune_percent is below 100, then a consistent Nonce
-- keeps every one of any number of distinct new ids: its size grows by their number.
pub run_unbounded :
    (n : Nonce) (ids : List Bytes)
    → IsConsistent n
    → (n.prune_percent == 100) ≡ false
    → n.max_size * n.prune_percent < 100
    → Distinct (n.order ++ ids)
    → size (run n ids) ≡ size n + length ids
unfolding run size
run_unbounded n [] good p small d = omega arith
run_unbounded n (x ∷ ids) good p small d =
    let idle = prune_idle n p (to_prune_zero n small) in
    let e = continue_on_new n x idle (good.same x ∙ Distinct-middle n.order x ids d) in
    let good' = rw e at (continue_on-IsConsistent n x good) in
    let next = record n { seen = x ∷ n.seen; order = n.order ++ x ∷ [] } in
    let d' : Distinct ((n.order ++ x ∷ []) ++ ids) = rw (append_assoc n.order (x ∷ []) ids) d in
    ap (λ m. size (run m ids)) e
    ∙ omega (arith, run_unbounded next ids good' p small d', length-append n.order (x ∷ []))
