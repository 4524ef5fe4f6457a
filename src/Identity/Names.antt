-- ===== src/Identity/Names.antt =====
-- The texts of the states and kinds of a Did are read back to them.
use ra_common_cpp.Base.{◌≡◌, refl, list_eq}
use ra_common_cpp.Identity.{
  DidStatus, DidType, did_status_to_string, did_status_from_string, did_type_to_string,
  did_type_from_string,
}

pub did_status_from_string-to_string :
    (x : DidStatus) → did_status_from_string (did_status_to_string x) ≡ x
unfolding did_status_from_string did_status_to_string list_eq
did_status_from_string-to_string DidStatus.inactive = refl
did_status_from_string-to_string DidStatus.active = refl
did_status_from_string-to_string DidStatus.suspended = refl
did_status_from_string-to_string DidStatus.private = refl

pub did_type_from_string-to_string : (x : DidType) → did_type_from_string (did_type_to_string x) ≡ x
unfolding did_type_from_string did_type_to_string list_eq
did_type_from_string-to_string DidType.contact = refl
did_type_from_string-to_string DidType.identity = refl
did_type_from_string-to_string DidType.node = refl
