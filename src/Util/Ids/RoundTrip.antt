-- ===== src/Util/Ids/RoundTrip.antt =====
-- The ways to make an identifier agree, and comparing tells identifiers apart.
use ra_common_cpp.Base.{ℕ, ◌≡◌, refl, ap, [], ◌∷◌, Bytes, IsBytes, length, ok, arith}
use ra_common_cpp.Std.Numbers.{pos}
use ra_common_cpp.Encoding.Base64.RoundTrip.{base64_decode-encode}
use ra_common_cpp.Util.Ids.{
  UniqueId, new_unique_id, of_raw, from_base64, to_base64, difference, compare_bytes, compare_ids,
}

new_unique_id_lem : (id : UniqueId) → length id.bytes ≡ 32 → new_unique_id id.bytes ≡ ok id
unfolding new_unique_id
new_unique_id_lem id h = rw h refl

-- FromBase64 reads back the base64 text of an identifier of 32 bytes.
pub from_base64-to_base64 :
    (id : UniqueId) → length id.bytes ≡ 32 → IsBytes id.bytes → from_base64 (to_base64 id) ≡ ok id
unfolding from_base64 to_base64 of_raw
from_base64-to_base64 id h bytes =
    rw (base64_decode-encode id.bytes bytes, h) (new_unique_id_lem id h)

compare_bytes-eq :
    (n : ℕ) (xs ys : Bytes) → length xs ≡ n → length ys ≡ n → compare_bytes xs ys ≡ pos 0 → xs ≡ ys
unfolding compare_bytes difference
compare_bytes-eq n [] [] hx hy e = refl
compare_bytes-eq n [] (y ∷ ys) hx hy e = absurd (omega arith)
compare_bytes-eq n (x ∷ xs) [] hx hy e = absurd (omega arith)
compare_bytes-eq n (x ∷ xs) (y ∷ ys) hx hy e = ground (arith, compare_bytes-eq (length xs) xs ys)

-- Two identifiers of 32 bytes for which Compare gives 0 are the same.
compare_ids-eq :
    (id other : UniqueId)
    → length id.bytes ≡ 32
    → length other.bytes ≡ 32
    → compare_ids id other ≡ pos 0
    → id ≡ other
unfolding compare_ids
compare_ids-eq id other h h' e =
    ap (λ b. record { bytes = b }) (compare_bytes-eq 32 id.bytes other.bytes h h' e)
