-- ===== src/Base/Errors.antt =====
-- include/ra_common/exception.hpp: the package's exception, and the result of code that may throw.
-- A C++ exception is the error of a `Result`; what the standard library throws has a case of its own.
use mathlib.Core.Path.{◌≡◌, refl}
use mathlib.Core.Bool.{Bool, true, false}
use mathlib.Core.List.{◌++◌}
use ra_common_cpp.Base.Lists.{Bytes, codes}

pub data RaErrorKind : Type 0 where
  decode crypto invalid service_not_found service_not_accessible service_not_supported : RaErrorKind
  service_already_registered file_creation_failed io : RaErrorKind

unfoldable pub error_kind_to_string : RaErrorKind → Bytes
error_kind_to_string decode = codes "decode"
error_kind_to_string crypto = codes "crypto"
error_kind_to_string invalid = codes "invalid"
error_kind_to_string service_not_found = codes "service-not-found"
error_kind_to_string service_not_accessible = codes "service-not-accessible"
error_kind_to_string service_not_supported = codes "service-not-supported"
error_kind_to_string service_already_registered = codes "service-already-registered"
error_kind_to_string file_creation_failed = codes "file-creation-failed"
error_kind_to_string io = codes "io"

pub record RaException : Type 0 where
  pub kind : RaErrorKind
  pub what : Bytes

-- std::invalid_argument and std::out_of_range of std::stoi and .at(), and std::runtime_error; `out_of_fuel`
-- is the result of a recursion that the fuel of its model cut off, and `undefined_behaviour` stands for an
-- int that overflows, where C++ says nothing of the result.
pub data Error : Type 0 where
  thrown : RaException → Error
  invalid_argument : Error
  out_of_range : Error
  runtime_error : Bytes → Error
  out_of_fuel : Error
  undefined_behaviour : Error

pub data Result {ℓ} (A : Type ℓ) : Type ℓ where
  ok : A → Result A
  err : Error → Result A

-- The constructor: the text of the kind, ": " and the message.
unfoldable pub ra_exception : RaErrorKind → Bytes → RaException
unfolding error_kind_to_string
ra_exception k message = record {
  kind = k;
  what = error_kind_to_string k ++ (codes ": " ++ message);
}

-- `throw RaException::Decode(message)`, Crypto and Invalid.
abbrev pub throw_decode {ℓ} : {A : Type ℓ} → Bytes → Result A
throw_decode message = err (thrown (ra_exception decode message))

abbrev pub throw_crypto {ℓ} : {A : Type ℓ} → Bytes → Result A
throw_crypto message = err (thrown (ra_exception crypto message))

abbrev pub throw_invalid {ℓ} : {A : Type ℓ} → Bytes → Result A
throw_invalid message = err (thrown (ra_exception invalid message))

-- An exception ends the rest of the function.
infixl 5 ◌>>=◌
abbrev pub ◌>>=◌ {ℓ κ} : {A : Type ℓ} {B : Type κ} → Result A → (A → Result B) → Result B
m >>= next = elim m [ ok a ↦ next a | err e ↦ err e ]

pub ok-injective {ℓ} : {A : Type ℓ} {a b : A} → ok a ≡ ok b → a ≡ b
ok-injective e = cc

-- `if (bad) throw e;`
abbrev pub throw_if : Bool → Result (Unit {0}) → Result (Unit {0})
throw_if true e = e
throw_if false e = ok tt

infixl 5 ◌>>◌
abbrev pub ◌>>◌ {ℓ} : {B : Type ℓ} → Result (Unit {0}) → Result B → Result B
first >> second = first >>= λ done. second

module _ {ℓ κ} {A : Type ℓ} {B : Type κ} (next : A → Result B) (b : B) where
  -- A call that came to its end had a result, which the rest went on from.
  pub >>=-eq-ok : (m : Result A) → (m >>= next) ≡ ok b → (a : A) × ((next a ≡ ok b) × (m ≡ ok a))
  >>=-eq-ok (err e) h = cc
  >>=-eq-ok (ok a) h = (a, (h, refl))
