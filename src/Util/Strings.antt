-- ===== src/Util/Strings.antt =====
-- include/ra_common/util/string_util.hpp; std::toupper is that of the C locale.
pub mod Capitals
use ra_common_cpp.Base.{
  ℕ, ◌+◌, ◌-◌, Bool, true, false, not, ◌&&◌, List, [], ◌∷◌, Bytes, leb, ◌==◌, if◌then◌else◌,
}

unfoldable pub to_upper : ℕ → ℕ
to_upper c = if leb b'a' c && leb c b'z' then c - 32 else c

unfoldable pub capitalize_first : Bytes → Bytes
capitalize_first [] = []
capitalize_first (c ∷ text) = to_upper c ∷ text

-- The loop of Capitalize; the flag is `capitalize_next`.
unfoldable pub capitalize_from : Bool → Bytes → Bytes
capitalize_from next [] = []
capitalize_from next (ch ∷ text) =
    let done = to_upper ch ∷ capitalize_from false text in
    let same = ch ∷ capitalize_from (ch == b' ') text in
    if next && not (ch == b' ') then done else same

unfoldable pub capitalize : Bytes → Bytes
capitalize text = capitalize_from true text
