-- ===== src/Service/Reports.antt =====
-- The report that a service writes into an envelope, as a reader of the envelope finds it.
use ra_common_cpp.Base.{
  true, false, ◌↔◌, List, [], ◌≡◌, refl, Bytes, codes, list_eq, list_eq_refl, ok, ok-injective, ◌∙◌,
  ap, some,
}
use ra_common_cpp.Std.Json.{JsonLibrary}
use ra_common_cpp.Std.Json.Arrays.{of_strings, read_strings, read_strings-of}
use ra_common_cpp.Std.Json.Fields.{
  field, at, optional, or_default, value, at_string, optional_string, or_default_list,
}
use ra_common_cpp.Route.Json.External.{read_bool}
use ra_common_cpp.Messaging.{Command, command}
use ra_common_cpp.Service.{ServiceCore, ServiceStatus, status_to_string, status_eq, report_of}
use ra_common_cpp.Service.Updates.{status_eq→eq, status_eq_self}
use ra_common_cpp.Service.Dispatch.{Handlers, report_fields, report_to_json, handle, handle-header}
use ra_common_cpp.Envelope.Json.{EnvelopeData}
use ra_common_cpp.Envelope.Payload.{header}

module _ {Json : Type 0} (lib : JsonLibrary Json) where
  open lib use {get_string, get_bool, is_object}

  -- What the members of a report say of the service.
  pub record Reports (core : ServiceCore) (v : Json) : Type 0 where
    pub says_name : at lib get_string v (codes "service_class_name") ≡ ok core.service_class_name
    pub says_status :
        at lib get_string v (codes "service_status") ≡ ok (status_to_string core.status)
    pub says_registered : value lib get_bool v (codes "registered") false ≡ ok core.registered
    pub says_running :
        (value lib get_bool v (codes "running") false ≡ ok true)
        ↔ (core.status ≡ ServiceStatus.running)
    pub says_version : optional lib get_string v (codes "version") ≡ ok core.version
    pub says_services :
        or_default lib (read_strings lib) v (codes "services_dependent_upon") []
        ≡ ok core.services_dependent_upon

  module _ {S : Type 0} (h : Handlers Json S) where
    running_iff :
        (s : ServiceStatus)
        → (ok (status_eq s ServiceStatus.running) ≡ ok true) ↔ (s ≡ ServiceStatus.running)
    running_iff s = (
      λ e. status_eq→eq s ServiceStatus.running (ok-injective e),
      λ e. rw e (ap ok (status_eq_self ServiceStatus.running)),
    )

    report_to_json-Reports :
        (core : ServiceCore) → Reports core (report_to_json lib h (report_of core))
    unfolding report_to_json report_of field list_eq
    report_to_json-Reports core =
        let fields = report_fields lib h (report_of core) in
        record {
          says_name =
              at_string lib fields (codes "service_class_name") core.service_class_name refl;
          says_status =
              at_string lib fields (codes "service_status") (status_to_string core.status) refl;
          says_registered = read_bool lib fields (codes "registered") core.registered refl;
          says_running =
              rw
                (read_bool lib fields (codes "running")
                  (status_eq core.status ServiceStatus.running) refl)
                (running_iff core.status);
          says_version = optional_string lib fields (codes "version") core.version refl;
          says_services =
              or_default_list lib fields (codes "services_dependent_upon") (read_strings lib)
                (of_strings lib) core.services_dependent_upon refl
                (read_strings-of lib core.services_dependent_upon);
        }

    -- Handle of an envelope with the command Report and an object of headers leaves the service
    -- as it was and keeps every header but "result", in which a reader finds the name of the
    -- service, the text of its status, whether it is registered, that it is running just when the
    -- status is Running, its version if it has one, and the services that it depends on.
    pub handle-Reports :
        (e : EnvelopeData Json) (s : S) (errors : List Bytes)
        → e.message
          ≡ some (record { body = command (some Command.report); error_messages = errors })
        → is_object e.headers ≡ true
        → (e' : EnvelopeData Json) × (handle lib h e s ≡ ok (e', s))
          × Reports (h.core s) (header lib (codes "result") e')
          × ((name : Bytes)
              → list_eq (codes "result") name ≡ false
              → header lib name e' ≡ header lib name e)
    handle-Reports e s errors reports object' =
        let (e', (gives, finds)) = handle-header lib h e s errors reports object' in
        let here : header lib (codes "result") e' ≡ report_to_json lib h (report_of (h.core s)) =
          finds (codes "result") ∙ rw (list_eq_refl (codes "result")) refl in
        (
          e',
          gives,
          rw here (report_to_json-Reports (h.core s)),
          λ name other. finds name ∙ rw other refl,
        )
