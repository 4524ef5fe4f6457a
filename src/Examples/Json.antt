-- ===== src/Examples/Json.antt =====
-- A JSON library: trees, an object as its members in the order in which they were assigned.
mod Trees
mod Assigned
use ra_common_cpp.Base.{[], ◌∷◌, refl, ap, ◌++◌, codes, runtime_error, ok}
use ra_common_cpp.Std.Json.{JsonLibrary, lookup}
pub use ra_common_cpp.Examples.Json.Trees.{
  Tree, int_tree, string_tree, object_tree, end_of_object, member,
}
use ra_common_cpp.Examples.Json.Trees.{
  null_tree, bool_tree, array_tree, to_forest, to_entries, tree_bool, tree_int, tree_string,
  tree_array, members_of, find_tree, tree_is_object, tree_is_null, tree_is_empty, trees_of,
  of_forest-to_forest, of_entries-to_entries, null_only,
}
use ra_common_cpp.Examples.Json.Assigned.{
  assign_tree, object_with_member, assign_tree-of, erase_tree, erase_tree-of, tree_is_array,
  tree_is_string, push_tree, array_only,
}

abbrev pub trees : JsonLibrary Tree
trees = record {
  null = null_tree;
  of_bool = bool_tree;
  of_int = int_tree;
  of_string = string_tree;
  of_array = λ ts. array_tree (to_forest ts);
  of_object = λ ms. object_tree (to_entries ms);
  get_bool = tree_bool;
  get_int = tree_int;
  get_string = tree_string;
  get_array = tree_array;
  find_member = find_tree;
  is_object = tree_is_object;
  is_null = tree_is_null;
  is_empty = tree_is_empty;
  elements = trees_of;
  items = members_of;
  assign = assign_tree;
  missing = λ t name. runtime_error (codes "no such member");
  no_object = λ t. runtime_error (codes "no object");
  get_bool-of = λ b. refl;
  get_int-of = λ n. refl;
  get_string-of = λ s. refl;
  get_array-of = λ ts. ap ok (of_forest-to_forest ts);
  find_member-of = λ ms name. ap (lookup name) (of_entries-to_entries ms);
  is_object-of = λ ms. refl;
  elements-of = of_forest-to_forest;
  items-of = λ ms ordered. of_entries-to_entries ms;
  is_null-null = refl;
  is_null-only = null_only;
  is_object-find_member = object_with_member;
  assign-of = assign_tree-of;
  is_array = tree_is_array;
  is_string = tree_is_string;
  push_back = push_tree;
  erase_member = erase_tree;
  is_array-null = refl;
  is_array-of = λ ts. refl;
  is_array-only = array_only;
  is_string-of = λ s. refl;
  push_back-of =
      λ ts v. ap (λ us. ok (array_tree (to_forest (us ++ v ∷ [])))) (of_forest-to_forest ts);
  erase_member-of = erase_tree-of;
}
