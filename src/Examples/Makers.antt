-- ===== src/Examples/Makers.antt =====
-- What the constructors make of random bytes, and the theorems on it at concrete inputs.
use ra_common_cpp.Base.{
  List, ℕ, ◌≡◌, refl, Bool, true, false, [], ◌∷◌, Option, none, some, Bytes, All, codes, length,
  list_eq, list_eq_refl, if◌then◌else◌, ok, arith,
}
use ra_common_cpp.Std.Numbers.{ℤ, pos, negsuc}
use ra_common_cpp.Std.Json.{lookup}
use ra_common_cpp.Std.Json.Arrays.{of_strings, read_strings}
use ra_common_cpp.Std.Entropy.{random_bytes_of}
use ra_common_cpp.Util.Random.{value_or, int_in, next_int_in, random_uuid_like}
use ra_common_cpp.Util.Random.Ranges.{Draws, next_int_in-Draws}
use ra_common_cpp.Util.Random.Ids.{random_uuid_like-injective}
use ra_common_cpp.Envelope.Json.{EnvelopeData, envelope_to_json, envelope_from_json}
use ra_common_cpp.Envelope.Make.{new_envelope}
use ra_common_cpp.Envelope.Make.Made.{envelope_from_json-new_envelope}
use ra_common_cpp.Envelope.Payload.{doc_values, primary, value_of}
use ra_common_cpp.Envelope.Exceptions.{
  exceptions_name, add_exception, exceptions_of, add_exception-exceptions_of,
}
use ra_common_cpp.Content.{Facts, plain_text, content_kind_for_type}
use ra_common_cpp.Content.Build.{build}
use ra_common_cpp.Content.Build.Built.{IsBuilt, build_lem}
use ra_common_cpp.Util.Random.Ranges.{is_alphanumeric}
use ra_common_cpp.Config.Directories.{Mkdir, zero_returned, failed_with, eexist, app_dir}
use ra_common_cpp.Config.Directories.Again.{FollowsManual, after, mkdirs, app_dir_again}
use ra_common_cpp.Examples.Crypto.{zeros, zeros_NeverFails}
use ra_common_cpp.Examples.Json.{Tree, trees, object_tree, member, end_of_object}
use ra_common_cpp.Examples.Conversions.{parcel}
use ra_common_cpp.Messaging.{document}

-- From -3 up to 4, both ends drawn from words.
dice : int_in (negsuc 2) (pos 4) 6 ≡ some (pos 3)
unfolding int_in
dice = refl

next_int_in-Draws_example :
    (result : Option ℤ × ℕ) × (next_int_in zeros 0 (negsuc 2) (pos 4) ≡ ok result)
    × Draws (negsuc 2) (pos 4) result.0
next_int_in-Draws_example =
    next_int_in-Draws zeros 0 (negsuc 2) (pos 4) (zeros_NeverFails) (omega arith) (omega arith)
      (omega arith) (omega arith)

zero_id : random_uuid_like zeros 3 ≡ ok (codes "00000000-0000-0000-0000-000000000000", 4)
unfolding random_uuid_like random_bytes_of
zero_id = refl

random_uuid_like-injective_example :
    (bytes : Bytes) × (random_bytes_of zeros 3 16 ≡ ok (bytes, 4))
    × (random_bytes_of zeros 3 16 ≡ ok (bytes, 4))
    × (length (codes "00000000-0000-0000-0000-000000000000") ≡ 36)
random_uuid_like-injective_example =
    random_uuid_like-injective zeros 3 3 (codes "00000000-0000-0000-0000-000000000000") 4 4 zero_id
      zero_id

envelope_from_json-new_envelope_example :
    (made : EnvelopeData Tree × ℕ) × (new_envelope trees zeros 0 none none ≡ ok made)
    × ((drawn : Bytes) × (made.0.routing.id ≡ value_or none drawn) × (length drawn ≡ 36))
    × ((last : ℕ) × (envelope_from_json trees zeros 1 (envelope_to_json trees made.0) 5
          ≡ ok (made.0, last)))
envelope_from_json-new_envelope_example =
    envelope_from_json-new_envelope trees zeros 0 none none 5 zeros_NeverFails tt

-- A document with one exception.
abbrev failure : EnvelopeData Tree
failure = record parcel {
  message = some (record {
    body = document (
        object_tree
          (member (codes "EXCEPTIONS") (of_strings trees (codes "first" ∷ [])) end_of_object)
        ∷ []);
    error_messages = [];
  });
}

failure_doc :
    doc_values trees failure.message
    ≡ some (
        object_tree
          (member (codes "EXCEPTIONS") (of_strings trees (codes "first" ∷ [])) end_of_object)
        ∷ [])
unfolding doc_values
failure_doc = refl

failure_object :
    trees.is_object (
      primary trees (
        object_tree
          (member (codes "EXCEPTIONS") (of_strings trees (codes "first" ∷ [])) end_of_object)
        ∷ []))
    ≡ true
unfolding primary
failure_object = refl

failure_exceptions : exceptions_of trees failure ≡ ok (codes "first" ∷ [])
unfolding exceptions_of list_eq lookup read_strings
failure_exceptions = refl

add_exception-exceptions_of_example :
    (after : EnvelopeData Tree) × (add_exception trees (codes "second") failure ≡ ok (after, true))
    × (exceptions_of trees after ≡ ok (codes "first" ∷ codes "second" ∷ []))
    × ((other : Bytes)
        → list_eq exceptions_name other ≡ false
        → value_of trees other after ≡ value_of trees other failure)
add_exception-exceptions_of_example =
    add_exception-exceptions_of trees (codes "second") failure _ (codes "first" ∷ []) failure_doc
      failure_object failure_exceptions

known_type : content_kind_for_type (codes "text/plain") ≡ some plain_text
unfolding content_kind_for_type
known_type = refl

build_lem_example :
    (built : Facts × ℕ) × (build zeros 0
        (pos 1700000000000)
        (1 ∷ 2 ∷ [])
        (codes "text/plain")
        none
        none
        true
        true
      ≡ ok built)
    × (IsBuilt (1 ∷ 2 ∷ []) (codes "text/plain") plain_text true built.0
        × (built.0.created_at ≡ some (pos 1700000000000))
        × ((id : Bytes) × (built.0.content_id ≡ some id)
            × (length id ≡ 32)
            × All (λ b. is_alphanumeric b ≡ true) id))
build_lem_example =
    build_lem zeros 0 (1 ∷ 2 ∷ []) (codes "text/plain") plain_text none none (zeros_NeverFails)
      (pos 1700000000000) true true known_type

-- A file system of directories with no links, in which every parent is there.
abbrev Made : Type 0
Made = Bytes → Bool

abbrev make_dir_at : Bool → Made → Bytes → Mkdir × Made
make_dir_at true files path = (failed_with eexist, files)
make_dir_at false files path =
    (zero_returned, λ other. if list_eq path other then true else files other)

abbrev make_dir : Made → Bytes → Mkdir × Made
make_dir files path = make_dir_at (files path) files path

dir_made :
    (b : Bool) (files : Made) (path : Bytes)
    → (make_dir_at b files path).0 ≡ zero_returned
    → (make_dir_at b files path).1 path ≡ true
dir_made true files path e = absurd (cc)
dir_made false files path e = rw (list_eq_refl path) refl

dir_found :
    (b : Bool) (files : Made) (path : Bytes)
    → files path ≡ b
    → (make_dir_at b files path).0 ≡ failed_with eexist
    → (make_dir_at b files path).1 path ≡ true
dir_found true files path there e = there
dir_found false files path there e = absurd (cc)

dir_kept :
    (b : Bool) (files : Made) (path other : Bytes)
    → files other ≡ true
    → (make_dir_at b files path).1 other ≡ true
dir_kept true files path other there = there
dir_kept false files path other there = rw there (ground arith)

abbrev make_dir-FollowsManual : FollowsManual make_dir
make_dir-FollowsManual = record {
  Exists = λ path files. files path ≡ true;
  makes = λ files path. dir_made (files path) files path;
  finds = λ files path. dir_found (files path) files path refl;
  answers = λ files path there. rw there refl;
  keeps = λ files path. dir_kept (files path) files path;
}

abbrev last_dirs : Made
last_dirs =
    after make_dir make_dir-FollowsManual (codes "/home/a/.config") (codes "g") (codes "x")
      (λ path. false)

dirs_made :
    app_dir make_dir (codes "/home/a/.config") (codes "g") (codes "x") true (λ path. false)
    ≡ (ok (codes "/home/a/.config/g/x"), last_dirs)
unfolding app_dir list_eq
dirs_made = refl

app_dir_again_example :
    (last_dirs (codes "/home/a/.config/g") ≡ true)
    × (last_dirs (codes "/home/a/.config/g/x") ≡ true)
    × ((others : List Bytes)
        → (app_dir make_dir
            (codes "/home/a/.config")
            (codes "g")
            (codes "x")
            true
            (mkdirs make_dir make_dir-FollowsManual others last_dirs)).0
          ≡ ok (codes "/home/a/.config/g/x"))
app_dir_again_example =
    app_dir_again make_dir make_dir-FollowsManual (codes "/home/a/.config") (codes "g") (codes "x")
      (codes "/home/a/.config/g/x") (λ path. false) last_dirs dirs_made
