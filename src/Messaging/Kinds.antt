-- ===== src/Messaging/Kinds.antt =====
-- What MessageFromJson does by the kind that the text names.
use ra_common_cpp.Base.{
  ℕ, ap, ok-injective, Result, Bool, false, ◌||◌, ◌++◌, ◌≡◌, ◌∙◌, sym, Bytes, codes, list_eq,
  list_eq→eq, inl, inr, Bool-cases, ok, err, runtime_error, >>=-eq-ok, arith,
}
use ra_common_cpp.Std.Entropy.{Source}
use ra_common_cpp.Std.Json.{JsonLibrary}
use ra_common_cpp.Std.Json.Fields.{at}
use ra_common_cpp.Messaging.{
  Message, kind_of, document_from_json, command_from_json, event_from_json, text_from_json, undrawn,
  message_of_kind, message_from_json,
}

abbrev pub is_kind : Bytes → Bool
is_kind kind =
    list_eq kind (codes "document")
    || list_eq kind (codes "command")
    || list_eq kind (codes "event")
    || list_eq kind (codes "text")

module _ {Json : Type 0} (lib : JsonLibrary Json) where
  open lib use {get_string}

  -- What each class reads is of its kind.
  document_from_json-kind :
      (j : Json) (m : Message Json)
      → document_from_json lib j ≡ ok m
      → kind_of m.body ≡ codes "document"
  unfolding document_from_json kind_of
  document_from_json-kind j m e = ground arith

  command_from_json-kind :
      (j : Json) (m : Message Json)
      → command_from_json lib j ≡ ok m
      → kind_of m.body ≡ codes "command"
  unfolding command_from_json kind_of
  command_from_json-kind j m e = ground arith

  event_from_json-kind :
      (source : Source) (j : Json) (call : ℕ) (m : Message Json) (next : ℕ)
      → event_from_json lib source j call ≡ ok (m, next)
      → kind_of m.body ≡ codes "event"
  unfolding event_from_json kind_of
  event_from_json-kind source j call m next e = ground arith

  undrawn-ok :
      (call : ℕ) (m : Message Json) (next : ℕ) (r : Result (Message Json))
      → undrawn lib call r ≡ ok (m, next)
      → r ≡ ok m
  undrawn-ok call m next (ok n) e = ap (λ p. ok p.0) (ok-injective e)
  undrawn-ok call m next (err x) e = absurd (cc)

  text_from_json-kind :
      (j : Json) (m : Message Json) → text_from_json lib j ≡ ok m → kind_of m.body ≡ codes "text"
  unfolding text_from_json kind_of
  text_from_json-kind j m e = ground arith

  of_kind :
      (source : Source) (kind : Bytes) (j : Json) (call : ℕ) (m : Message Json) (next : ℕ)
      → message_of_kind lib source kind j call ≡ ok (m, next)
      → kind_of m.body ≡ kind
  unfolding message_of_kind
  of_kind source kind j call m next = elim (Bool-cases (list_eq kind (codes "document"))) [
    | inl e ↦ rw e (λ reads.
        document_from_json-kind j m (undrawn-ok call m next _ reads) ∙ sym (list_eq→eq _ _ e))
    | inr e ↦ rw e (elim (Bool-cases (list_eq kind (codes "command"))) [
      | inl e ↦ rw e (λ reads.
          command_from_json-kind j m (undrawn-ok call m next _ reads) ∙ sym (list_eq→eq _ _ e))
      | inr e ↦ rw e (elim (Bool-cases (list_eq kind (codes "event"))) [
        | inl e ↦
            rw e (λ reads. event_from_json-kind source j call m next reads ∙ sym (list_eq→eq _ _ e))
        | inr e ↦ rw e (elim (Bool-cases (list_eq kind (codes "text"))) [
          | inl e ↦ rw e (λ reads.
              text_from_json-kind j m (undrawn-ok call m next _ reads) ∙ sym (list_eq→eq _ _ e))
          | inr e ↦ rw e (λ reads. absurd (cc))
        ])
      ])
    ])
  ]

  -- A message that MessageFromJson returns is of the kind that the text names.
  pub message_from_json-kind_of :
      (source : Source) (j : Json) (call : ℕ) (m : Message Json) (next : ℕ)
      → message_from_json lib source j call ≡ ok (m, next)
      → at lib get_string j (codes "kind") ≡ ok (kind_of m.body)
  unfolding message_from_json
  message_from_json-kind_of source j call m next reads =
      let (kind, (gives, found)) =
        >>=-eq-ok (λ kind. message_of_kind lib source kind j call) (m, next)
          (at lib get_string j (codes "kind")) reads in
      rw (of_kind source kind j call m next gives) found

  -- MessageFromJson throws a runtime_error that names the kind if the text names a kind that is
  -- none of the four.
  pub message_from_json-unknown :
      (source : Source) (kind : Bytes) (j : Json) (call : ℕ)
      → at lib get_string j (codes "kind") ≡ ok kind
      → is_kind kind ≡ false
      → message_from_json lib source j call
        ≡ err (runtime_error (codes "unknown message kind: " ++ kind))
  unfolding message_from_json message_of_kind
  message_from_json-unknown source kind j call found unknown = rw found (ground (arith, unknown))
