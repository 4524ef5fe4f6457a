-- ===== src/Config/Order.antt =====
-- Which source of the configuration a value comes from.
use ra_common_cpp.Base.{
  Bool, true, false, List, [], ◌∷◌, ◌≡◌, refl, sym, ap, ◌∙◌, inl, inr, Bool-cases, Option, none,
  some, Bytes, list_eq, list_eq→eq, list_eq_refl, if◌then◌else◌, ok, arith,
}
use ra_common_cpp.Std.Lines.{split_lines}
use ra_common_cpp.Std.Json.{lookup}
use ra_common_cpp.Config.{
  Settings, put_setting, put_all, lines_from, put_line, put_trimmed, trim, is_comment, property_of,
  parse_properties, load_from_file, load_from_env, load_file_over, load_all,
}

abbrev pub IsMap : Settings → Type 0
IsMap [] = Unit
IsMap ((k, v) ∷ rest) = (lookup k rest ≡ none) × IsMap rest

-- The value of the first source, or that of the second.
abbrev pub before_else : Option Bytes → Option Bytes → Option Bytes
before_else none second = second
before_else (some v) second = some v

found_twice :
    (b : Bool) (x y z : Option Bytes)
    → (if b then x else z) ≡ (if b then x else (if b then y else z))
found_twice true x y z = refl
found_twice false x y z = refl

both_names :
    (name k l : Bytes) → list_eq name k ≡ false → list_eq name l ≡ true → list_eq k l ≡ false
both_names name k l differ same = elim (Bool-cases (list_eq k l)) [
  | inl e ↦
      let one : name ≡ k = list_eq→eq name l same ∙ sym (list_eq→eq k l e) in
      absurd (cc (sym differ ∙ ap (λ n. list_eq n k) one ∙ list_eq_refl k))
  | inr e ↦ e
]

lookup-put_setting :
    (k v l : Bytes) (config : Settings)
    → lookup l (put_setting k v config) ≡ (if list_eq k l then some v else lookup l config)
unfolding lookup put_setting
lookup-put_setting k v l [] = refl
lookup-put_setting k v l ((name, w) ∷ rest) = elim (Bool-cases (list_eq name k)) [
  | inl e ↦
      rw (e, list_eq→eq name k e) (found_twice (list_eq k l) (some v) (some w) (lookup l rest))
  | inr e ↦ rw (e, lookup-put_setting k v l rest) (ground (arith, both_names name k l e))
]

lookup-put_all :
    (props config : Settings) (l : Bytes)
    → IsMap props
    → lookup l (put_all props config) ≡ before_else (lookup l props) (lookup l config)
unfolding lookup put_all
lookup-put_all [] config l is_map = refl
lookup-put_all ((k, v) ∷ props) config l (once', is_map) = elim (Bool-cases (list_eq k l)) [
  | inl e ↦
      let gone : lookup l props ≡ none =
        ap (λ n. lookup n props) (sym (list_eq→eq k l e)) ∙ once' in
      rw
        (
          lookup-put_all props (put_setting k v config) l is_map,
          gone,
          lookup-put_setting k v l config,
          e,
        )
        refl
  | inr e ↦
      rw
        (lookup-put_all props (put_setting k v config) l is_map, lookup-put_setting k v l config, e)
        refl
]

lookup-put_other :
    (k v name : Bytes) (rest : Settings)
    → list_eq name k ≡ false
    → lookup name rest ≡ none
    → lookup name (put_setting k v rest) ≡ none
lookup-put_other k v name rest differ once' =
    let other = both_names name k name differ (list_eq_refl name) in
    lookup-put_setting k v name rest ∙ rw other once'

put_setting-IsMap :
    (k v : Bytes) (config : Settings) → IsMap config → IsMap (put_setting k v config)
unfolding put_setting lookup
put_setting-IsMap k v [] is_map = (refl, tt)
put_setting-IsMap k v ((name, w) ∷ rest) (once', is_map) = elim (Bool-cases (list_eq name k)) [
  | inl e ↦ rw e (once', is_map)
  | inr e ↦ rw e (lookup-put_other k v name rest e once', put_setting-IsMap k v rest is_map)
]

put_trimmed-IsMap :
    (pair : Option (Bytes × Bytes)) (config : Settings)
    → IsMap config
    → IsMap (put_trimmed pair config)
unfolding put_trimmed
put_trimmed-IsMap none config is_map = is_map
put_trimmed-IsMap (some (k, v)) config is_map = put_setting-IsMap (trim k) (trim v) config is_map

put_line-IsMap : (line : Bytes) (config : Settings) → IsMap config → IsMap (put_line line config)
unfolding put_line
put_line-IsMap line config is_map = elim (Bool-cases (is_comment line)) [
  | inl e ↦ rw e is_map
  | inr e ↦ rw e (put_trimmed-IsMap (property_of line) config is_map)
]

lines_from-IsMap :
    (raws : List Bytes) (config : Settings) → IsMap config → IsMap (lines_from raws config)
unfolding lines_from
lines_from-IsMap [] config is_map = is_map
lines_from-IsMap (raw ∷ raws) config is_map =
    lines_from-IsMap raws (put_line (trim raw) config) (put_line-IsMap (trim raw) config is_map)

parse_properties-IsMap : (text : Bytes) → IsMap (parse_properties text)
unfolding parse_properties
parse_properties-IsMap text = lines_from-IsMap (split_lines 10 text) [] tt

-- LoadAll of a file that opens returns a configuration that has, for every name, the value of the
-- client if there is one, else that of the file, else that of the environment; the properties of
-- the client have each name once, as a std::map has.
pub load_all-lookup :
    (entries : List Bytes) (path text : Bytes) (client : Settings)
    → IsMap client
    → (config : Settings) × ((load_all entries (some (path, some text)) client ≡ ok config)
        × ((k : Bytes)
            → lookup k config
              ≡ before_else (lookup k client) (
                  before_else
                    (lookup k (parse_properties text))
                    (lookup k (load_from_env entries)))))
unfolding load_all load_file_over load_from_file
load_all-lookup entries path text client is_map = (
  put_all client (put_all (parse_properties text) (load_from_env entries)),
  (
    refl,
    λ k.
        lookup-put_all client (put_all (parse_properties text) (load_from_env entries)) k is_map
        ∙ ap (before_else (lookup k client)) (
            lookup-put_all (parse_properties text) (load_from_env entries) k
              (parse_properties-IsMap text)),
  ),
)
