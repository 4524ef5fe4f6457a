-- ===== src/Examples/Std.antt =====
-- Runs of the standard-library functions.
use ra_common_cpp.Base.{◌≡◌, refl, [], ◌∷◌, codes, ok, err, invalid_argument}
use ra_common_cpp.Std.Numbers.{pos, negsuc, stoi, to_string}
use ra_common_cpp.Std.Lines.{split_lines}

to_string_1000 : to_string 1000 ≡ codes "1000"
unfolding to_string
to_string_1000 = refl

stoi_1000 : stoi 10 (codes " -12x") ≡ ok (negsuc 11, 4)
unfolding stoi
stoi_1000 = refl

stoi_hex : stoi 16 (codes "0x") ≡ ok (pos 0, 1)
unfolding stoi
stoi_hex = refl

stoi_none : stoi 10 (codes "+") ≡ err invalid_argument
unfolding stoi
stoi_none = refl

ends_with_delimiter : split_lines b'_' (codes "a_b_") ≡ codes "a" ∷ codes "b" ∷ []
unfolding split_lines
ends_with_delimiter = refl
