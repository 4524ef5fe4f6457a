-- ===== src/Multipart.antt =====
-- include/ra_common/multipart.hpp: the builder of a multipart/form-data body.
use ra_common_cpp.Base.{
  ℕ, [], ◌∷◌, ◌++◌, ◌≡◌, refl, Option, none, some, Bytes, codes, list_eq, Result, ok, ◌>>=◌,
}
use ra_common_cpp.Std.Entropy.{Source, NeverFails}
use ra_common_cpp.Util.Random.{value_or, random_alphanumeric}
use ra_common_cpp.Util.Random.Ranges.{random_alphanumeric-All}
use ra_common_cpp.Std.Json.{JsonLibrary}
use ra_common_cpp.Std.Json.Fields.{
  Fields, field, written, present, at, optional, optional_string, at_string,
}

pub record Multipart : Type 0 where
  pub boundary : Bytes
  pub charset : Option Bytes
  pub body_text : Bytes

abbrev line_feed : Bytes
line_feed = 13 ∷ 10 ∷ []

abbrev quote : Bytes
quote = 34 ∷ []

abbrev charset_or_utf8 : Option Bytes → Bytes
charset_or_utf8 none = codes "UTF-8"
charset_or_utf8 (some c) = c

-- The constructor, which draws a boundary also where it is given one. The result also has the number
-- of the next call of getentropy.
unfoldable pub new_multipart : Source → ℕ → Option Bytes → Option Bytes → Result (Multipart × ℕ)
unfolding value_or
new_multipart source call charset boundary_in = do
  (drawn, next) ← random_alphanumeric source call 32
  ok (record { boundary = value_or boundary_in drawn; charset = charset; body_text = [] }, next)

unfoldable pub add_form_field : Bytes → Bytes → Multipart → Multipart
add_form_field name text m = record m {
  body_text =
      m.body_text
      ++ (codes "--" ++ m.boundary ++ line_feed)
      ++ (codes "Content-Disposition: form-data; name=" ++ quote ++ name ++ quote ++ line_feed)
      ++ (codes "Content-Type: text/plain; charset="
          ++ charset_or_utf8 m.charset
          ++ line_feed
          ++ line_feed)
      ++ (text ++ line_feed);
}

abbrev disposition : Bytes → Option Bytes → Bytes
disposition field_name none =
    codes "Content-Disposition: file; name="
    ++ quote
    ++ field_name
    ++ quote
    ++ codes ";"
    ++ line_feed
disposition field_name (some file_name) =
    codes "Content-Disposition: file; filename=" ++ quote ++ file_name ++ quote ++ line_feed

unfoldable pub add_file_part : Bytes → Option Bytes → Multipart → Multipart
add_file_part field_name file_name m = record m {
  body_text =
      m.body_text
      ++ (codes "--" ++ m.boundary ++ line_feed)
      ++ disposition field_name file_name
      ++ (codes "Content-Type: application/octet-stream" ++ line_feed)
      ++ (codes "Content-Transfer-Encoding: binary" ++ line_feed ++ line_feed);
}

unfoldable pub add_header_field : Bytes → Bytes → Multipart → Multipart
add_header_field name text m = record m {
  body_text = m.body_text ++ name ++ codes ": " ++ text ++ line_feed;
}

unfoldable pub append_raw : Bytes → Multipart → Multipart
append_raw text m = record m { body_text = m.body_text ++ text }

unfoldable pub finish : Multipart → Bytes
finish m = m.body_text ++ codes "--" ++ m.boundary ++ codes "--" ++ line_feed

module _ {Json : Type 0} (lib : JsonLibrary Json) where
  open lib use {of_string, of_object, get_string}

  abbrev multipart_fields : Multipart → Fields Json
  multipart_fields m =
      (codes "boundary", some (of_string m.boundary))
      ∷ (codes "charset", written of_string m.charset)
      ∷ []

  unfoldable pub multipart_to_json : Multipart → Json
  multipart_to_json m = of_object (present (multipart_fields m))

  unfoldable pub multipart_from_json : Source → Json → ℕ → Result (Multipart × ℕ)
  unfolding new_multipart
  multipart_from_json source j call = do
    charset' ← optional lib get_string j (codes "charset")
    boundary' ← at lib get_string j (codes "boundary")
    new_multipart source call charset' (some boundary')

  -- The text has the boundary and the charset, and not the body.
  pub multipart_from_json-to_json :
      (source : Source) (m : Multipart) (call : ℕ)
      → NeverFails source
      → (next : ℕ) × (multipart_from_json source (multipart_to_json m) call
          ≡ ok (record m { body_text = [] }, next))
  unfolding multipart_from_json multipart_to_json field list_eq
  multipart_from_json-to_json source m call always =
      let fields = multipart_fields m in
      let ((drawn, next), draws, _, _) = random_alphanumeric-All source call 32 always in
      (
        next,
        rw
            (
              optional_string lib fields (codes "charset") m.charset refl,
              at_string lib fields (codes "boundary") m.boundary refl,
              draws,
            )
            refl,
      )
