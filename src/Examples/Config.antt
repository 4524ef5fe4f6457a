-- ===== src/Examples/Config.antt =====
-- A configuration from its three sources.
use ra_common_cpp.Base.{◌≡◌, refl, ◌++◌, [], ◌∷◌, some, Bytes, codes, list_eq, ok}
use ra_common_cpp.Std.Json.{lookup}
use ra_common_cpp.Std.Lines.{split_lines}
use ra_common_cpp.Config.{Settings, load_from_args, load_from_env, parse_properties, load_all}
use ra_common_cpp.Config.Order.{before_else, load_all-lookup}

abbrev file_text : Bytes
file_text = codes "# top" ++ 10 ∷ codes " a = 1 " ++ 13 ∷ 10 ∷ codes "b:2" ++ 10 ∷ []

abbrev client_props : Settings
client_props = (codes "b", codes "3") ∷ []

two_properties : parse_properties file_text ≡ (codes "a", codes "1") ∷ (codes "b", codes "2") ∷ []
unfolding parse_properties split_lines list_eq
two_properties = refl

no_empty_name :
    load_from_args b'=' (codes "x=y=z" ∷ codes "=q" ∷ codes "r" ∷ [])
    ≡ (codes "x", codes "y=z") ∷ []
unfolding load_from_args list_eq
no_empty_name = refl

load_all-lookup_example :
    (config : Settings) × ((load_all
          (codes "A=B" ∷ [])
          (some (codes "p", some file_text))
          client_props
        ≡ ok config)
      × ((k : Bytes)
          → lookup k config
            ≡ before_else (lookup k client_props) (
                before_else
                  (lookup k (parse_properties file_text))
                  (lookup k (load_from_env (codes "A=B" ∷ []))))))
unfolding lookup
load_all-lookup_example =
    load_all-lookup (codes "A=B" ∷ []) (codes "p") file_text client_props (refl, tt)
