-- ===== src/Examples/Json/Assigned.antt =====
-- Members assigned and erased, and the elements of an array.
use ra_common_cpp.Base.{
  Bool, true, false, List, [], ◌∷◌, ◌≡◌, refl, sym, ap, ◌∙◌, list_eq, list_eq→eq, if◌then◌else◌,
  inl, inr, Bool-cases, list_eq_refl, arith, Option, some, none, ◌++◌, Bytes, Result, ok,
}
use ra_common_cpp.Std.Json.{Members, lookup}
use ra_common_cpp.Examples.Json.Trees.{
  null_tree, bool_tree, int_tree, string_tree, array_tree, object_tree, no_trees, tree,
  end_of_object, member, Tree, to_forest, of_forest, to_entries, of_entries, wrong, find_tree,
  tree_is_object, to_forest-of_forest, of_entries-to_entries,
}

-- A member replaced, or appended.
abbrev put_tree : Bytes → Tree → Members Tree → Members Tree
put_tree k v [] = (k, v) ∷ []
put_tree k v ((name, t) ∷ ms) =
    let rest = put_tree k v ms in if list_eq name k then (name, v) ∷ ms else (name, t) ∷ rest

abbrev pub assign_tree : Tree → Bytes → Tree → Result Tree
assign_tree null_tree k v = ok (object_tree (member k v end_of_object))
assign_tree (object_tree ms) k v = ok (object_tree (to_entries (put_tree k v (of_entries ms))))
assign_tree t k v = wrong

found_twice :
    (b : Bool) (x y z : Option Tree)
    → (if b then x else z) ≡ (if b then x else (if b then y else z))
found_twice true x y z = refl
found_twice false x y z = refl

both_names :
    (name k l : Bytes) → list_eq name k ≡ false → list_eq name l ≡ true → list_eq k l ≡ false
both_names name k l differ same = elim (Bool-cases (list_eq k l)) [
  | inl e ↦
      let one : name ≡ k = list_eq→eq name l same ∙ sym (list_eq→eq k l e) in
      absurd (cc (sym differ ∙ ap (λ n. list_eq n k) one ∙ list_eq_refl k))
  | inr e ↦ e
]

lookup-put_tree :
    (k l : Bytes) (v : Tree) (ms : Members Tree)
    → lookup l (put_tree k v ms) ≡ (if list_eq k l then some v else lookup l ms)
unfolding lookup
lookup-put_tree k l v [] = refl
lookup-put_tree k l v ((name, t) ∷ ms) = elim (Bool-cases (list_eq name k)) [
  | inl e ↦ rw (e, list_eq→eq name k e) (found_twice (list_eq k l) (some v) (some t) (lookup l ms))
  | inr e ↦ rw (e, lookup-put_tree k l v ms) (ground (arith, both_names name k l e))
]

pub object_with_member : (t v : Tree) (k : Bytes) → find_tree t k ≡ some v → tree_is_object t ≡ true
unfolding lookup
object_with_member (object_tree es) v k e = refl
object_with_member null_tree v k e = cc
object_with_member (bool_tree b) v k e = cc
object_with_member (int_tree n) v k e = cc
object_with_member (string_tree s) v k e = cc
object_with_member (array_tree ts) v k e = cc

pub assign_tree-of :
    (t : Tree) (k : Bytes) (v : Tree)
    → tree_is_object t ≡ true
    → (after : Tree) × ((assign_tree t k v ≡ ok after)
        × ((l : Bytes) → find_tree after l ≡ (if list_eq k l then some v else find_tree t l)))
assign_tree-of (object_tree ms) k v e = (
  object_tree (to_entries (put_tree k v (of_entries ms))),
  (
    refl,
    λ l.
        ap (lookup l) (of_entries-to_entries (put_tree k v (of_entries ms)))
        ∙ lookup-put_tree k l v (of_entries ms),
  ),
)
assign_tree-of null_tree k v e = absurd (cc)
assign_tree-of (bool_tree b) k v e = absurd (cc)
assign_tree-of (int_tree n) k v e = absurd (cc)
assign_tree-of (string_tree s) k v e = absurd (cc)
assign_tree-of (array_tree ts) k v e = absurd (cc)

-- The members of other names.
abbrev without_name : Bytes → Members Tree → Members Tree
without_name k [] = []
without_name k ((name, t) ∷ ms) =
    let rest = without_name k ms in if list_eq name k then rest else (name, t) ∷ rest

abbrev pub erase_tree : Tree → Bytes → Result Tree
erase_tree (object_tree ms) k = ok (object_tree (to_entries (without_name k (of_entries ms))))
erase_tree t k = wrong

none_twice : (b : Bool) → ◌≡◌ {A = Option Tree} none (if b then none else none)
none_twice true = refl
none_twice false = refl

skipped :
    (b : Bool) (x z : Option Tree)
    → (if b then none else z) ≡ (if b then none else (if b then x else z))
skipped true x z = refl
skipped false x z = refl

lookup-without_name :
    (k l : Bytes) (ms : Members Tree)
    → lookup l (without_name k ms) ≡ (if list_eq k l then none else lookup l ms)
unfolding lookup
lookup-without_name k l [] = none_twice (list_eq k l)
lookup-without_name k l ((name, t) ∷ ms) = elim (Bool-cases (list_eq name k)) [
  | inl e ↦
      rw (e, lookup-without_name k l ms, list_eq→eq name k e)
        (skipped (list_eq k l) (some t) (lookup l ms))
  | inr e ↦ rw (e, lookup-without_name k l ms) (ground (arith, both_names name k l e))
]

pub erase_tree-of :
    (t : Tree) (k : Bytes)
    → tree_is_object t ≡ true
    → (after : Tree) × ((erase_tree t k ≡ ok after)
        × (tree_is_object after ≡ true)
        × ((l : Bytes) → find_tree after l ≡ (if list_eq k l then none else find_tree t l)))
erase_tree-of (object_tree ms) k e = (
  object_tree (to_entries (without_name k (of_entries ms))),
  (
    refl,
    refl,
    λ l.
        ap (lookup l) (of_entries-to_entries (without_name k (of_entries ms)))
        ∙ lookup-without_name k l (of_entries ms),
  ),
)
erase_tree-of null_tree k e = absurd (cc)
erase_tree-of (bool_tree b) k e = absurd (cc)
erase_tree-of (int_tree n) k e = absurd (cc)
erase_tree-of (string_tree s) k e = absurd (cc)
erase_tree-of (array_tree ts) k e = absurd (cc)

abbrev pub tree_is_array : Tree → Bool
tree_is_array (array_tree ts) = true
tree_is_array t = false

abbrev pub tree_is_string : Tree → Bool
tree_is_string (string_tree s) = true
tree_is_string t = false

abbrev pub push_tree : Tree → Tree → Result Tree
push_tree null_tree v = ok (array_tree (tree v no_trees))
push_tree (array_tree ts) v = ok (array_tree (to_forest (of_forest ts ++ v ∷ [])))
push_tree t v = wrong

pub array_only :
    (t : Tree) → tree_is_array t ≡ true → (ts : List Tree) × (t ≡ array_tree (to_forest ts))
array_only (array_tree ts) e = (of_forest ts, ap array_tree (sym (to_forest-of_forest ts)))
array_only null_tree e = absurd (cc)
array_only (bool_tree b) e = absurd (cc)
array_only (int_tree n) e = absurd (cc)
array_only (string_tree s) e = absurd (cc)
array_only (object_tree es) e = absurd (cc)
