-- ===== src/Examples/Json/Trees.antt =====
-- JSON values as trees, and the readers of them.
use ra_common_cpp.Base.{
  Bool, true, false, List, [], ◌∷◌, ◌≡◌, refl, ap, Option, Bytes, codes, runtime_error, Result, ok,
  err,
}
use ra_common_cpp.Std.Numbers.{ℤ}
use ra_common_cpp.Std.Json.{Members, lookup}

mutual
  pub data Tree : Type 0 where
    null_tree : Tree
    bool_tree : Bool → Tree
    int_tree : ℤ → Tree
    string_tree : Bytes → Tree
    array_tree : Forest → Tree
    object_tree : Entries → Tree

  pub data Forest : Type 0 where
    no_trees : Forest
    tree : Tree → Forest → Forest

  pub data Entries : Type 0 where
    end_of_object : Entries
    member : Bytes → Tree → Entries → Entries

abbrev pub to_forest : List Tree → Forest
to_forest [] = no_trees
to_forest (t ∷ ts) = tree t (to_forest ts)

abbrev pub of_forest : Forest → List Tree
of_forest no_trees = []
of_forest (tree t ts) = t ∷ of_forest ts

abbrev pub to_entries : Members Tree → Entries
to_entries [] = end_of_object
to_entries ((name, t) ∷ rest) = member name t (to_entries rest)

abbrev pub of_entries : Entries → Members Tree
of_entries end_of_object = []
of_entries (member name t rest) = (name, t) ∷ of_entries rest

abbrev pub wrong : {A : Type 0} → Result A
wrong = err (runtime_error (codes "type error"))

abbrev pub tree_bool : Tree → Result Bool
tree_bool (bool_tree b) = ok b
tree_bool t = wrong

abbrev pub tree_int : Tree → Result ℤ
tree_int (int_tree n) = ok n
tree_int t = wrong

abbrev pub tree_string : Tree → Result Bytes
tree_string (string_tree s) = ok s
tree_string t = wrong

abbrev pub tree_array : Tree → Result (List Tree)
tree_array (array_tree ts) = ok (of_forest ts)
tree_array t = wrong

abbrev pub members_of : Tree → Members Tree
members_of (object_tree entries) = of_entries entries
members_of t = []

abbrev pub find_tree : Tree → Bytes → Option Tree
find_tree t name = lookup name (members_of t)

abbrev pub tree_is_object : Tree → Bool
tree_is_object (object_tree entries) = true
tree_is_object t = false

abbrev pub tree_is_null : Tree → Bool
tree_is_null null_tree = true
tree_is_null t = false

abbrev pub tree_is_empty : Tree → Bool
tree_is_empty null_tree = true
tree_is_empty (array_tree no_trees) = true
tree_is_empty (object_tree end_of_object) = true
tree_is_empty t = false

abbrev pub trees_of : Tree → List Tree
trees_of (array_tree ts) = of_forest ts
trees_of t = []

pub of_forest-to_forest : (ts : List Tree) → of_forest (to_forest ts) ≡ ts
of_forest-to_forest [] = refl
of_forest-to_forest (t ∷ ts) = ap (λ us. t ∷ us) (of_forest-to_forest ts)

pub to_forest-of_forest : (ts : Forest) → to_forest (of_forest ts) ≡ ts
to_forest-of_forest no_trees = refl
to_forest-of_forest (tree t ts) = ap (tree t) (to_forest-of_forest ts)

pub of_entries-to_entries : (ms : Members Tree) → of_entries (to_entries ms) ≡ ms
of_entries-to_entries [] = refl
of_entries-to_entries ((name, t) ∷ ms) = ap (λ us. (name, t) ∷ us) (of_entries-to_entries ms)

pub null_only : (t : Tree) → tree_is_null t ≡ true → t ≡ null_tree
null_only null_tree e = refl
null_only (bool_tree b) e = cc
null_only (int_tree n) e = cc
null_only (string_tree s) e = cc
null_only (array_tree ts) e = cc
null_only (object_tree es) e = cc
