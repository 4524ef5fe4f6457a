-- ===== src/Util/Nonce/Window.antt =====
-- The set of a Nonce holds exactly the ids of its window `order`, and an id is taken for a replay
-- exactly while it is in the window.
use ra_common_cpp.Base.{
  ℕ, zero, suc, ◌≡◌, refl, sym, ap, ◌∙◌, inl, inr, false, not, ◌||◌, List, [], ◌∷◌, ◌++◌, Bytes,
  length, leb, ◌==◌, list_eq, list_eq_iff, list_eq→eq, Bool-cases, if◌then◌else◌, arith,
}
use ra_common_cpp.Util.Nonce.{Nonce, contains, erase, evict, to_prune, prune, continue_on}

abbrev pub Distinct : List Bytes → Type 0
Distinct [] = Unit {0}
Distinct (x ∷ xs) = (contains x xs ≡ false) × Distinct xs

pub contains-append :
    (id : Bytes) (xs ys : List Bytes) → contains id (xs ++ ys) ≡ (contains id xs || contains id ys)
unfolding contains
contains-append id [] ys = refl
contains-append id (x ∷ xs) ys = ground (arith, contains-append id xs ys)

contains-erase :
    (id j : Bytes) (xs : List Bytes)
    → contains j (erase id xs) ≡ (if list_eq id j then false else contains j xs)
unfolding contains erase
contains-erase id j [] = ground arith
contains-erase id j (x ∷ xs) =
    ground (arith, contains-erase id j xs, list_eq_iff x id, list_eq_iff id j, list_eq_iff x j)

Distinct-append :
    (xs : List Bytes) (id : Bytes) → Distinct xs → contains id xs ≡ false → Distinct (xs ++ id ∷ [])
unfolding contains
Distinct-append [] id d h = (refl, tt)
Distinct-append (x ∷ xs) id d h = (
  ground (arith, contains-append x xs (id ∷ []), list_eq_iff x id, list_eq_iff id x),
  Distinct-append xs id d.1 (ground arith),
)

pub record IsConsistent (n : Nonce) : Type 0 where
  pub same : (id : Bytes) → contains id n.seen ≡ contains id n.order
  pub distinct : Distinct n.order

slide :
    (oldest : Bytes) (rest seen : List Bytes)
    → ((id : Bytes) → contains id seen ≡ contains id (oldest ∷ rest))
    → contains oldest rest ≡ false
    → (id : Bytes) → contains id (erase oldest seen) ≡ contains id rest
unfolding contains
slide oldest rest seen same new id = elim (Bool-cases (list_eq oldest id)) [
  | inl e ↦ ground (arith, contains-erase oldest id seen, list_eq→eq oldest id e, new)
  | inr e ↦ ground (arith, contains-erase oldest id seen, same id)
]

evict-IsConsistent :
    (k : ℕ) (seen order : List Bytes) (max_size percent : ℕ)
    → IsConsistent
        (record { seen = seen; order = order; max_size = max_size; prune_percent = percent })
    → IsConsistent (
        evict k
          (record { seen = seen; order = order; max_size = max_size; prune_percent = percent }))
unfolding evict
evict-IsConsistent zero seen order m p h = h
evict-IsConsistent (suc k) seen [] m p h = h
evict-IsConsistent (suc k) seen (oldest ∷ rest) m p h =
    evict-IsConsistent k (erase oldest seen) rest m p
      (record { same = slide oldest rest seen h.same h.distinct.0; distinct = h.distinct.1 })

prune-IsConsistent : (n : Nonce) → IsConsistent n → IsConsistent (prune n)
unfolding prune contains
prune-IsConsistent n h = elim (Bool-cases (leb (length n.order) n.max_size)) [
  | inl e ↦ rw e h
  | inr e ↦ elim (Bool-cases (n.prune_percent == 100)) [
    | inl f ↦ rw (e, f) (record { same = λ id. refl; distinct = tt })
    | inr f ↦
        rw (e, f) (evict-IsConsistent (to_prune n) n.seen n.order n.max_size n.prune_percent h)
  ]
]

-- ContinueOn on a consistent Nonce answers false exactly for the ids of the window that the
-- pruning leaves.
pub continue_on-contains :
    (n : Nonce) (id : Bytes)
    → IsConsistent n
    → (continue_on n id).1 ≡ not (contains id (prune n).order)
unfolding continue_on
continue_on-contains n id h = elim (Bool-cases (contains id (prune n).seen)) [
  | inl e ↦ rw e (ap not (sym e ∙ (prune-IsConsistent n h).same id))
  | inr e ↦ rw e (ap not (sym e ∙ (prune-IsConsistent n h).same id))
]

-- If the set and the queue of a Nonce hold the same ids and the queue holds each once, then so
-- they do after ContinueOn.
pub continue_on-IsConsistent :
    (n : Nonce) (id : Bytes) → IsConsistent n → IsConsistent (continue_on n id).0
unfolding continue_on contains
continue_on-IsConsistent n id h =
    let p = prune-IsConsistent n h in
    elim (Bool-cases (contains id (prune n).seen)) [
      | inl e ↦ rw e p
      | inr e ↦ rw e record {
        same = λ j. ground (arith, contains-append j (prune n).order (id ∷ []), p.same j);
        distinct = Distinct-append (prune n).order id p.distinct (sym (p.same id) ∙ e);
      }
    ]
