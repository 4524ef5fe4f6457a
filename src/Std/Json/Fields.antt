-- ===== src/Std/Json/Fields.antt =====
-- Objects made of fields that may be absent, and the ways in which the conversions read a field.
use ra_common_cpp.Base.{
  Bool, true, false, List, [], ◌∷◌, ◌≡◌, refl, ◌∙◌, Option, none, some, Bytes, list_eq,
  if◌then◌else◌, Result, ok, err, ◌>>=◌, inl, inr, Bool-cases,
}
use ra_common_cpp.Std.Json.{Members, lookup, JsonLibrary}

-- `if (x) obj[name] = f(*x)`
abbrev pub written : {A Json : Type 0} → (A → Json) → Option A → Option Json
written f none = none
written f (some a) = some (f a)

-- `if (!x.empty()) obj[name] = f(x)`
abbrev pub written_list : {A Json : Type 0} → (List A → Json) → List A → Option Json
written_list f [] = none
written_list f (x ∷ xs) = some (f (x ∷ xs))

-- `if (x) obj[name] = true`
abbrev pub written_flag : {Json : Type 0} → (Bool → Json) → Bool → Option Json
written_flag f false = none
written_flag f true = some (f true)

abbrev pub Fields : Type 0 → Type 0
Fields Json = List (Bytes × Option Json)

-- The members that are there, in the order in which they are assigned.
abbrev pub present : {Json : Type 0} → Fields Json → Members Json
present [] = []
present ((name, none) ∷ fields) = present fields
present ((name, some v) ∷ fields) = (name, v) ∷ present fields

abbrev pub or_else : {Json : Type 0} → Option Json → Option Json → Option Json
or_else none o = o
or_else (some v) o = some v

-- What a name finds among fields.
unfoldable pub field : {Json : Type 0} → Bytes → Fields Json → Option Json
field k [] = none
field k ((name, o) ∷ fields) =
    let rest = field k fields in if list_eq name k then or_else o rest else rest

lookup-present :
    {Json : Type 0} (k : Bytes) (fields : Fields Json) → lookup k (present fields) ≡ field k fields
unfolding lookup field
lookup-present k [] = refl
lookup-present k ((name, none) ∷ fields) = elim (Bool-cases (list_eq name k)) [
  | inl e ↦ rw e (lookup-present k fields)
  | inr e ↦ rw e (lookup-present k fields)
]
lookup-present k ((name, some v) ∷ fields) = elim (Bool-cases (list_eq name k)) [
  | inl e ↦ rw e refl
  | inr e ↦ rw e (lookup-present k fields)
]

module _ {Json : Type 0} (lib : JsonLibrary Json) where
  open lib use {
    of_object, find_member, is_object, is_empty, missing, no_object, find_member-of, is_object-of,
  }

  -- data.at(name).get<A>()
  unfoldable pub at : {A : Type 0} → (Json → Result A) → Json → Bytes → Result A
  at read data' name = elim (find_member data' name) [
    | none ↦ err (missing data' name)
    | some v ↦ read v
  ]

  -- if (data.contains(name)) x = data.at(name).get<A>(), for an optional x.
  unfoldable pub optional : {A : Type 0} → (Json → Result A) → Json → Bytes → Result (Option A)
  optional read data' name = elim (find_member data' name) [
    | none ↦ ok none
    | some v ↦ read v >>= λ a. ok (some a)
  ]

  -- The same with a default in place of no value.
  unfoldable pub or_default : {A : Type 0} → (Json → Result A) → Json → Bytes → A → Result A
  or_default read data' name d = elim (find_member data' name) [ none ↦ ok d | some v ↦ read v ]

  -- data.value(name, d)
  unfoldable pub value : {A : Type 0} → (Json → Result A) → Json → Bytes → A → Result A
  unfolding or_default
  value read data' name d =
      if is_object data' then or_default read data' name d else err (no_object data')

  pub find_member-present :
      (fields : Fields Json) (name : Bytes)
      → find_member (of_object (present fields)) name ≡ field name fields
  find_member-present fields name =
      find_member-of (present fields) name ∙ lookup-present name fields

  module _ {A : Type 0} (read : Json → Result A) (fields : Fields Json) (name : Bytes) where
    abbrev object : Json
    object = of_object (present fields)

    -- The ways to read a field of an object that was made of fields.
    pub at-field :
        (v : Json) (a : A) → field name fields ≡ some v → read v ≡ ok a → at read object name ≡ ok a
    unfolding at
    at-field v a there gives = rw (find_member-present fields name ∙ there, at) gives

    pub optional-field :
        (f : A → Json) (o : Option A)
        → field name fields ≡ or_else (written f o) none
        → ((a : A) → read (f a) ≡ ok a)
        → optional read object name ≡ ok o
    unfolding optional
    optional-field f none there gives = rw (find_member-present fields name ∙ there, optional) refl
    optional-field f (some a) there gives =
        rw (find_member-present fields name ∙ there, optional, gives a) refl

    pub or_default-field :
        (v : Json) (d a : A)
        → field name fields ≡ some v
        → read v ≡ ok a
        → or_default read object name d ≡ ok a
    unfolding or_default
    or_default-field v d a there gives =
        rw (find_member-present fields name ∙ there, or_default) gives

    pub or_default_no_field :
        (d : A) → field name fields ≡ none → or_default read object name d ≡ ok d
    unfolding or_default
    or_default_no_field d there = rw (find_member-present fields name ∙ there, or_default) refl

    pub value-field :
        (v : Json) (d a : A)
        → field name fields ≡ some v
        → read v ≡ ok a
        → value read object name d ≡ ok a
    unfolding value
    value-field v d a there gives =
        rw (is_object-of (present fields)) (or_default-field v d a there gives)

  module _ (fields : Fields Json) (name : Bytes) where
    open lib use {of_string, of_bool, get_string, get_bool, get_string-of, get_bool-of}

    -- The fields that are optional strings, and the flags that are written only when they are true.
    pub optional_string :
        (o : Option Bytes)
        → field name fields ≡ or_else (written of_string o) none
        → optional get_string (of_object (present fields)) name ≡ ok o
    optional_string o there = optional-field get_string fields name of_string o there get_string-of

    pub value_flag :
        (b : Bool)
        → field name fields ≡ or_else (written_flag of_bool b) none
        → value get_bool (of_object (present fields)) name false ≡ ok b
    unfolding value
    value_flag false there =
        rw (is_object-of (present fields)) (or_default_no_field get_bool fields name false there)
    value_flag true there =
        value-field get_bool fields name (of_bool true) false true there (get_bool-of true)

    pub at_string :
        (s : Bytes)
        → field name fields ≡ some (of_string s)
        → at get_string (of_object (present fields)) name ≡ ok s
    at_string s there = at-field get_string fields name (of_string s) s there (get_string-of s)

  -- The fields that are left out when they are empty.
  pub or_default_list :
      {A : Type 0}
      → (fields : Fields Json) (name : Bytes) (read : Json → Result (List A)) (f : List A → Json)
        (xs : List A)
      → field name fields ≡ or_else (written_list f xs) none
      → read (f xs) ≡ ok xs
      → or_default read (of_object (present fields)) name [] ≡ ok xs
  or_default_list fields name read f [] there gives = or_default_no_field read fields name [] there
  or_default_list fields name read f (x ∷ xs) there gives =
      or_default-field read fields name (f (x ∷ xs)) [] (x ∷ xs) there gives

  pub or_default_kept :
      (fields : Fields Json) (name : Bytes) (v : Json)
      → field name fields ≡ or_else (if is_empty v then none else some v) none
      → (is_empty v ≡ true → v ≡ of_object [])
      → or_default ok (of_object (present fields)) name (of_object []) ≡ ok v
  or_default_kept fields name v there kept = elim (Bool-cases (is_empty v)) [
    | inr e ↦ or_default-field ok fields name v (of_object []) v (there ∙ rw e refl) refl
    | inl e ↦ rw (kept e) (or_default_no_field ok fields name (of_object []) (there ∙ rw e refl))
  ]
