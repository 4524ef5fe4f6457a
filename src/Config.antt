-- ===== src/Config.antt =====
-- include/ra_common/config.hpp: the sources of the configuration. The arguments, the entries of `environ` and
-- the text of a file are given; `none` is a file that could not be opened. A std::map has each name once.
pub mod Order
pub mod Directories
use ra_common_cpp.Base.{
  ℕ, Bool, true, false, ◌||◌, List, [], ◌∷◌, ◌++◌, Option, none, some, Bytes, codes, list_eq, ◌==◌,
  if◌then◌else◌, Result, ok, err, thrown, ra_exception, io, ◌>>=◌,
}
use ra_common_cpp.Std.Lines.{split_lines}

abbrev pub Settings : Type 0
Settings = List (Bytes × Bytes)

-- out[name] = value
unfoldable pub put_setting : Bytes → Bytes → Settings → Settings
put_setting k v [] = (k, v) ∷ []
put_setting k v ((name, w) ∷ rest) =
    let later = put_setting k v rest in
    if list_eq name k then (name, v) ∷ rest else (name, w) ∷ later

-- What stands before and behind the first `delim`; `find` and `substr`.
unfoldable pub cut_at : ℕ → Bytes → Option (Bytes × Bytes)
cut_at delim [] = none
cut_at delim (c ∷ s) =
    let rest = cut_at delim s in
    if c == delim then some ([], s) else elim rest [ none ↦ none | some p ↦ some (c ∷ p.0, p.1) ]

unfoldable pub put_arg : Option (Bytes × Bytes) → Settings → Settings
unfolding put_setting
put_arg none out = out
put_arg (some ([], v)) out = out
put_arg (some (c ∷ k, v)) out = put_setting (c ∷ k) v out

unfoldable pub args_from : ℕ → List Bytes → Settings → Settings
unfolding cut_at put_arg
args_from delim [] out = out
args_from delim (arg ∷ args) out = args_from delim args (put_arg (cut_at delim arg) out)

unfoldable pub load_from_args : ℕ → List Bytes → Settings
unfolding args_from
load_from_args delim args = args_from delim args []

unfoldable pub put_pair : Option (Bytes × Bytes) → Settings → Settings
unfolding put_setting
put_pair none out = out
put_pair (some (k, v)) out = put_setting k v out

unfoldable pub env_from : List Bytes → Settings → Settings
unfolding cut_at put_pair
env_from [] out = out
env_from (entry ∷ entries) out = env_from entries (put_pair (cut_at b'=' entry) out)

unfoldable pub load_from_env : List Bytes → Settings
unfolding env_from
load_from_env entries = env_from entries []

-- " \t\r\n"
unfoldable pub is_blank : ℕ → Bool
is_blank c = c == 32 || c == 9 || c == 13 || c == 10

unfoldable pub trim_front : Bytes → Bytes
unfolding is_blank
trim_front [] = []
trim_front (c ∷ s) = let rest = trim_front s in if is_blank c then rest else c ∷ s

unfoldable pub trim_back : Bytes → Bytes
unfolding is_blank
trim_back [] = []
trim_back (c ∷ s) = elim (trim_back s) [
  | [] ↦ if is_blank c then [] else c ∷ []
  | d ∷ rest ↦ c ∷ d ∷ rest
]

unfoldable pub trim : Bytes → Bytes
unfolding trim_front trim_back
trim s = trim_back (trim_front s)

unfoldable pub is_comment : Bytes → Bool
is_comment [] = true
is_comment (c ∷ s) = c == b'#' || c == b'!'

unfoldable pub property_of : Bytes → Option (Bytes × Bytes)
unfolding cut_at
property_of line = elim (cut_at b'=' line) [ none ↦ cut_at b':' line | some p ↦ some p ]

unfoldable pub put_trimmed : Option (Bytes × Bytes) → Settings → Settings
unfolding put_setting trim
put_trimmed none out = out
put_trimmed (some (k, v)) out = put_setting (trim k) (trim v) out

unfoldable pub put_line : Bytes → Settings → Settings
unfolding is_comment property_of put_trimmed
put_line line out = if is_comment line then out else put_trimmed (property_of line) out

unfoldable pub lines_from : List Bytes → Settings → Settings
unfolding put_line trim
lines_from [] out = out
lines_from (raw ∷ raws) out = lines_from raws (put_line (trim raw) out)

unfoldable pub parse_properties : Bytes → Settings
unfolding lines_from
parse_properties text = lines_from (split_lines 10 text) []

unfoldable pub load_from_file : Bytes → Option Bytes → Result Settings
unfolding parse_properties
load_from_file path none = err (thrown (ra_exception io (codes "could not open " ++ path)))
load_from_file path (some text) = ok (parse_properties text)

-- `for (auto& [k, v] : props) config[k] = v;`
unfoldable pub put_all : Settings → Settings → Settings
unfolding put_setting
put_all [] config = config
put_all ((k, v) ∷ props) config = put_all props (put_setting k v config)

-- The path and the text of the file, if there is a path.
unfoldable pub load_file_over : Option (Bytes × Option Bytes) → Settings → Result Settings
unfolding load_from_file put_all
load_file_over none config = ok config
load_file_over (some (path, text)) config = do
  props ← load_from_file path text
  ok (put_all props config)

unfoldable pub load_all : List Bytes → Option (Bytes × Option Bytes) → Settings → Result Settings
unfolding load_from_env load_file_over put_all
load_all entries file client = do
  config ← load_file_over file (load_from_env entries)
  ok (put_all client config)
