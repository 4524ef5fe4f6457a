-- ===== src/Util/Ids.antt =====
-- include/ra_common/util/unique_id.hpp.
pub mod RoundTrip
use ra_common_cpp.Base.{
  ℕ, zero, suc, ◌+◌, ◌-◌, Bool, true, false, not, List, [], ◌∷◌, ◌++◌, Bytes, codes, length, take,
  drop, ltb, leb, ◌==◌, if◌then◌else◌, Result, ok, err, throw_invalid, throw_decode, ◌>>=◌,
}
use ra_common_cpp.Std.Numbers.{ℤ, pos, negsuc, to_string}
use ra_common_cpp.Std.Entropy.{Source, random_bytes_of}
use ra_common_cpp.Encoding.Base64.{base64_encode, base64_decode}

abbrev pub id_length : ℕ
id_length = 32

pub record UniqueId : Type 0 where
  pub bytes : Bytes

-- The constructor.
unfoldable pub new_unique_id : Bytes → Result UniqueId
new_unique_id given =
    if not (length given == id_length)
    then throw_invalid (
        codes "UniqueId must be "
        ++ (to_string id_length ++ (codes " bytes, got " ++ to_string (length given))))
    else ok (record { bytes = given })

-- UniqueId::Random, with the number of the next call of getentropy.
unfoldable pub random_unique_id : Source → ℕ → Result (UniqueId × ℕ)
random_unique_id source call = do
  (drawn, next) ← random_bytes_of source call id_length
  id ← new_unique_id drawn
  ok (id, next)

unfoldable pub from_slice : Bytes → ℕ → Result UniqueId
from_slice src offset =
    if ltb (length src) (offset + id_length)
    then throw_invalid (codes "not enough bytes for UniqueId")
    else new_unique_id (take id_length (drop offset src))

unfoldable pub of_raw : Bytes → Result UniqueId
of_raw raw =
    if not (length raw == id_length)
    then throw_decode (codes "UniqueId must be 32 bytes")
    else new_unique_id raw

unfoldable pub from_base64 : Bytes → Result UniqueId
from_base64 text = do raw ← base64_decode text; of_raw raw

unfoldable pub to_base64 : UniqueId → Bytes
to_base64 id = base64_encode id.bytes

-- The int difference of two bytes.
unfoldable pub difference : ℕ → ℕ → ℤ
difference a b = if leb b a then pos (a - b) else negsuc (b - a - 1)

-- The loop of Compare: the first bytes that differ decide.
unfoldable pub compare_bytes : Bytes → Bytes → ℤ
unfolding difference
compare_bytes [] ys = pos 0
compare_bytes (x ∷ xs) [] = pos 0
compare_bytes (x ∷ xs) (y ∷ ys) =
    let rest = compare_bytes xs ys in if x == y then rest else difference x y

unfoldable pub compare_ids : UniqueId → UniqueId → ℤ
compare_ids id other = compare_bytes id.bytes other.bytes
