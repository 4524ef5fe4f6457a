-- ===== src/Std/Json.antt =====
-- The JSON library nlohmann::json, a parameter of the conversions: the values, what the conversions
-- call, and what its documentation says of these calls on the values that the conversions make.
pub mod Arrays
pub mod Fields
use ra_common_cpp.Base.{
  Bool, true, false, List, [], ◌∷◌, ◌++◌, ◌≡◌, Option, none, some, Bytes, list_eq, ltb, ◌==◌,
  if◌then◌else◌, Error, Result, ok, err, ◌>>=◌,
}
use ra_common_cpp.Std.Numbers.{ℤ}

abbrev pub Members : Type 0 → Type 0
Members Json = List (Bytes × Json)

-- The first member of a name.
unfoldable pub lookup : {Json : Type 0} → Bytes → Members Json → Option Json
lookup k [] = none
lookup k ((name, v) ∷ members) =
    let rest = lookup k members in if list_eq name k then some v else rest

-- std::less on std::string
unfoldable pub less : Bytes → Bytes → Bool
less xs [] = false
less [] (y ∷ ys) = true
less (x ∷ xs) (y ∷ ys) = let rest = less xs ys in if x == y then rest else ltb x y

-- The names of a std::map, in its order.
abbrev pub IsOrdered : List Bytes → Type 0
IsOrdered [] = Unit {0}
IsOrdered (k ∷ []) = Unit {0}
IsOrdered (k ∷ l ∷ ks) = (less k l ≡ true) × IsOrdered (l ∷ ks)

abbrev pub names : {A : Type 0} → List (Bytes × A) → List Bytes
names [] = []
names ((name, a) ∷ entries) = name ∷ names entries

-- `find_member` is contains() and at() in one; `missing` is what at() throws where there is no such member,
-- `no_object` what value() throws on another value than an object. `elements` is a range-based for over
-- a value, `items` one over items(); `assign` is `j[name] = v`, `push_back` and `erase_member` give the value after the call. ℤ stands for int and int64_t.
pub record JsonLibrary (Json : Type 0) : Type 0 where
  pub null : Json
  pub of_bool : Bool → Json
  pub of_int : ℤ → Json
  pub of_string : Bytes → Json
  pub of_array : List Json → Json
  pub of_object : Members Json → Json
  pub get_bool : Json → Result Bool
  pub get_int : Json → Result ℤ
  pub get_string : Json → Result Bytes
  pub get_array : Json → Result (List Json)
  pub find_member : Json → Bytes → Option Json
  pub is_object : Json → Bool
  pub is_null : Json → Bool
  pub is_empty : Json → Bool
  pub elements : Json → List Json
  pub items : Json → Members Json
  pub assign : Json → Bytes → Json → Result Json
  pub is_array : Json → Bool
  pub is_string : Json → Bool
  pub push_back : Json → Json → Result Json
  pub erase_member : Json → Bytes → Result Json
  pub missing : Json → Bytes → Error
  pub no_object : Json → Error
  pub get_bool-of : (b : Bool) → get_bool (of_bool b) ≡ ok b
  pub get_int-of : (n : ℤ) → get_int (of_int n) ≡ ok n
  pub get_string-of : (s : Bytes) → get_string (of_string s) ≡ ok s
  pub get_array-of : (xs : List Json) → get_array (of_array xs) ≡ ok xs
  pub find_member-of :
      (members : Members Json) (k : Bytes) → find_member (of_object members) k ≡ lookup k members
  pub is_object-of : (members : Members Json) → is_object (of_object members) ≡ true
  pub elements-of : (xs : List Json) → elements (of_array xs) ≡ xs
  pub items-of :
      (members : Members Json) → IsOrdered (names members) → items (of_object members) ≡ members
  pub is_null-null : is_null null ≡ true
  pub is_null-only : (j : Json) → is_null j ≡ true → j ≡ null
  pub is_object-find_member :
      (j v : Json) (k : Bytes) → find_member j k ≡ some v → is_object j ≡ true
  pub assign-of :
      (j : Json) (k : Bytes) (v : Json)
      → is_object j ≡ true
      → (after : Json) × ((assign j k v ≡ ok after)
          × ((l : Bytes) → find_member after l ≡ (if list_eq k l then some v else find_member j l)))
  pub is_array-null : is_array null ≡ false
  pub is_array-of : (xs : List Json) → is_array (of_array xs) ≡ true
  pub is_array-only : (j : Json) → is_array j ≡ true → (xs : List Json) × (j ≡ of_array xs)
  pub is_string-of : (s : Bytes) → is_string (of_string s) ≡ true
  pub push_back-of :
      (xs : List Json) (v : Json) → push_back (of_array xs) v ≡ ok (of_array (xs ++ v ∷ []))
  pub erase_member-of :
      (j : Json) (k : Bytes)
      → is_object j ≡ true
      → (after : Json) × ((erase_member j k ≡ ok after)
          × (is_object after ≡ true)
          × ((l : Bytes) → find_member after l ≡ (if list_eq k l then none else find_member j l)))
