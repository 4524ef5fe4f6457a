-- ===== src/Util/Nonce.antt =====
-- include/ra_common/util/nonce.hpp. The head of `order` is the front of the deque; the set `seen` is
-- a list, which an id enters only where it is absent.
pub mod Window
pub mod Bounds
use ra_common_cpp.Base.{
  ℕ, zero, suc, ◌*◌, ◌/◌, ◌%◌, ◌^◌, min, Bool, true, false, ◌||◌, List, [], ◌∷◌, ◌++◌, Bytes,
  length, leb, ◌==◌, list_eq, if◌then◌else◌,
}
use ra_common_cpp.Std.Numbers.{ℤ, pos, negsuc}

pub record Nonce : Type 0 where
  pub seen : List Bytes
  pub order : List Bytes
  pub max_size : ℕ
  pub prune_percent : ℕ

-- std::clamp(prune_percent, 0, 100)
clamp_percent : ℤ → ℕ
clamp_percent (pos n) = min n 100
clamp_percent (negsuc n) = 0

unfoldable pub make : ℕ → ℤ → Nonce
unfolding clamp_percent
make max_size prune_percent = record {
  seen = [];
  order = [];
  max_size = max_size;
  prune_percent = clamp_percent prune_percent;
}

unfoldable pub contains : Bytes → List Bytes → Bool
contains id [] = false
contains id (x ∷ xs) = list_eq x id || contains id xs

unfoldable pub erase : Bytes → List Bytes → List Bytes
erase id [] = []
erase id (x ∷ xs) = let rest = erase id xs in if list_eq x id then rest else x ∷ rest

-- for (i = 0; i < to_prune && !order_.empty(); i++)
unfoldable pub evict : ℕ → Nonce → Nonce
evict zero n = n
evict (suc k) n = elim n.order [
  | [] ↦ n
  | oldest ∷ rest ↦ evict k (record n { seen = erase oldest n.seen; order = rest })
]

-- size_t arithmetic: the product is taken modulo 2 ^ 64.
unfoldable pub to_prune : Nonce → ℕ
to_prune n = n.max_size * n.prune_percent % 2 ^ 64 / 100

unfoldable pub prune : Nonce → Nonce
unfolding evict to_prune
prune n =
    if leb (length n.order) n.max_size
    then n
    else if n.prune_percent == 100
    then record n { seen = []; order = [] }
    else evict (to_prune n) n

-- ContinueOn: `true` for a new id, `false` for a replay.
unfoldable pub continue_on : Nonce → Bytes → Nonce × Bool
unfolding prune
continue_on n id =
    let p = prune n in
    if contains id p.seen
    then (p, false)
    else (record p { seen = id ∷ p.seen; order = p.order ++ id ∷ [] }, true)

unfoldable pub size : Nonce → ℕ
size n = length n.order

-- A sequence of calls.
unfoldable pub run : Nonce → List Bytes → Nonce
unfolding continue_on
run n [] = n
run n (id ∷ ids) = run (continue_on n id).0 ids
