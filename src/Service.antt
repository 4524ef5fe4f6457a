-- ===== src/Service.antt =====
-- include/ra_common/service/service_status.hpp and service_core.hpp. The bus's producer and the observer are told of a
-- status by calls, which are the values of `Call`; a null pointer makes no call.
pub mod Dispatch
pub mod Reports
pub mod Updates
use ra_common_cpp.Base.{
  ℕ, Bool, true, false, ◌||◌, not, List, [], ◌∷◌, ◌++◌, Option, none, some, Bytes, codes, list_eq,
  ◌==◌, if◌then◌else◌, Result, ok, err, ◌>>=◌,
}
use ra_common_cpp.Std.Numbers.{ℤ}
use ra_common_cpp.Std.Entropy.{Source}
use ra_common_cpp.Util.Random.{random_uuid_like, next_long}
use ra_common_cpp.Route.{DynamicRoutingSlip, slip, no_more, no_current, new_meta}
use ra_common_cpp.Envelope.{Envelope, add_service_route, ratchet}

pub data ServiceLevel : Type 0 where
  at_most_once at_least_once exactly_once : ServiceLevel

unfoldable pub level_to_string : ServiceLevel → Bytes
level_to_string ServiceLevel.at_most_once = codes "AtMostOnce"
level_to_string ServiceLevel.at_least_once = codes "AtLeastOnce"
level_to_string ServiceLevel.exactly_once = codes "ExactlyOnce"

unfoldable pub level_from_string : Bytes → ServiceLevel
level_from_string s =
    if list_eq s (codes "AtMostOnce")
    then ServiceLevel.at_most_once
    else if list_eq s (codes "ExactlyOnce")
    then ServiceLevel.exactly_once
    else ServiceLevel.at_least_once

pub data ServiceStatus : Type 0 where
  not_initialized initializing waiting starting running verified partially_running degraded_running
        unstable pausing paused unpausing shutting_down gracefully_shutting_down shutdown
        gracefully_shutdown restarting unavailable error :
      ServiceStatus

unfoldable pub status_to_string : ServiceStatus → Bytes
status_to_string ServiceStatus.not_initialized = codes "NotInitialized"
status_to_string ServiceStatus.initializing = codes "Initializing"
status_to_string ServiceStatus.waiting = codes "Waiting"
status_to_string ServiceStatus.starting = codes "Starting"
status_to_string ServiceStatus.running = codes "Running"
status_to_string ServiceStatus.verified = codes "Verified"
status_to_string ServiceStatus.partially_running = codes "PartiallyRunning"
status_to_string ServiceStatus.degraded_running = codes "DegradedRunning"
status_to_string ServiceStatus.unstable = codes "Unstable"
status_to_string ServiceStatus.pausing = codes "Pausing"
status_to_string ServiceStatus.paused = codes "Paused"
status_to_string ServiceStatus.unpausing = codes "Unpausing"
status_to_string ServiceStatus.shutting_down = codes "ShuttingDown"
status_to_string ServiceStatus.gracefully_shutting_down = codes "GracefullyShuttingDown"
status_to_string ServiceStatus.shutdown = codes "Shutdown"
status_to_string ServiceStatus.gracefully_shutdown = codes "GracefullyShutdown"
status_to_string ServiceStatus.restarting = codes "Restarting"
status_to_string ServiceStatus.unavailable = codes "Unavailable"
status_to_string ServiceStatus.error = codes "Error"

-- The position of an enumerator, which `==` compares.
unfoldable pub status_number : ServiceStatus → ℕ
status_number ServiceStatus.not_initialized = 0
status_number ServiceStatus.initializing = 1
status_number ServiceStatus.waiting = 2
status_number ServiceStatus.starting = 3
status_number ServiceStatus.running = 4
status_number ServiceStatus.verified = 5
status_number ServiceStatus.partially_running = 6
status_number ServiceStatus.degraded_running = 7
status_number ServiceStatus.unstable = 8
status_number ServiceStatus.pausing = 9
status_number ServiceStatus.paused = 10
status_number ServiceStatus.unpausing = 11
status_number ServiceStatus.shutting_down = 12
status_number ServiceStatus.gracefully_shutting_down = 13
status_number ServiceStatus.shutdown = 14
status_number ServiceStatus.gracefully_shutdown = 15
status_number ServiceStatus.restarting = 16
status_number ServiceStatus.unavailable = 17
status_number ServiceStatus.error = 18

unfoldable pub status_eq : ServiceStatus → ServiceStatus → Bool
unfolding status_number
status_eq a b = status_number a == status_number b

unfoldable pub service_status_is_running : ServiceStatus → Bool
unfolding status_eq
service_status_is_running s =
    status_eq s ServiceStatus.running
    || status_eq s ServiceStatus.verified
    || status_eq s ServiceStatus.partially_running
    || status_eq s ServiceStatus.degraded_running

pub record ServiceReport : Type 0 where
  pub service_class_name : Bytes
  pub service_status_value : ServiceStatus
  pub registered : Bool
  pub is_running : Bool
  pub version : Option Bytes
  pub services_dependent_upon : List Bytes

-- `has_producer` and `has_observer`: the pointer is not null.
pub record ServiceCore : Type 0 where
  pub service_class_name : Bytes
  pub registered : Bool
  pub version : Option Bytes
  pub services_dependent_upon : List Bytes
  pub config : List (Bytes × Bytes)
  pub has_producer : Bool
  pub has_observer : Bool
  pub status : ServiceStatus

unfoldable pub add_dependent_service : Bytes → ServiceCore → ServiceCore
add_dependent_service name core = record core {
  services_dependent_upon = core.services_dependent_upon ++ name ∷ [];
}

-- ServiceCore::Report
unfoldable pub report_of : ServiceCore → ServiceReport
unfolding status_eq
report_of core = record {
  service_class_name = core.service_class_name;
  service_status_value = core.status;
  registered = core.registered;
  is_running = status_eq core.status ServiceStatus.running;
  version = core.version;
  services_dependent_upon = core.services_dependent_upon;
}

-- ServiceStatusChanged of the observer, and Send of the producer with the event's message value. The
-- envelope bears no attribute values, so that any type serves for theirs.
pub data Call : Type 0 where
  status_changed : Bytes → ServiceStatus → Call
  sent : Envelope (List ℕ) → ServiceReport → Call

-- The ids that the constructors draw: of the envelope, of its slip and of the route.
pub record Drawn : Type 0 where
  pub envelope_id : Bytes
  pub drawn_slip : ℤ
  pub drawn_route : ℤ

unfoldable pub status_envelope : Drawn → Envelope (List ℕ)
status_envelope drawn =
    let fresh : Envelope (List ℕ) = record {
      id = drawn.envelope_id;
      dynamic_routing_slip = slip (new_meta none none drawn.drawn_slip) no_more no_current;
      route = no_current;
      markers = [];
    } in
    ratchet (
      add_service_route (codes "ra.notification.NotificationService") (codes "PUBLISH")
        drawn.drawn_route fresh)

-- What UpdateStatus draws for the envelope: EventMessage::Of draws an id, once for the message and
-- once for Envelope::Event; then the envelope, its slip and the route draw theirs. The result also
-- has the number of the next call of getentropy.
unfoldable pub draw : Source → ℕ → Result (Drawn × ℕ)
draw source call = do
  (_, call1) ← random_uuid_like source call
  (_, call2) ← random_uuid_like source call1
  (id, call3) ← random_uuid_like source call2
  (slip_id, call4) ← next_long source call3
  (route_id, last) ← next_long source call4
  ok (record { envelope_id = id; drawn_slip = slip_id; drawn_route = route_id }, last)

unfoldable pub announced : ServiceCore → Result (Drawn × ℕ) → List Call × Result ℕ
unfolding status_envelope report_of
announced core (err e) = ([], err e)
announced core (ok (drawn, last)) = (sent (status_envelope drawn) (report_of core) ∷ [], ok last)

-- The part under `if (producer != nullptr)`: the calls that it makes and how it ends.
unfoldable pub announce : Source → ℕ → ServiceCore → List Call × Result ℕ
unfolding draw announced
announce source call core =
    if core.has_producer then announced core (draw source call) else ([], ok call)

-- The service after UpdateStatus, the calls, and how it ends: where it throws, the status is set and
-- the observer has been told.
unfoldable pub update_status :
    Source → ℕ → ServiceStatus → ServiceCore → ServiceCore × List Call × Result ℕ
unfolding status_eq announce
update_status source call s core =
    let set : ServiceCore = record core { status = s } in
    let (calls, ends) = announce source call set in
    if status_eq core.status s then (core, [], ok call) else (
      set,
      (if core.has_observer then status_changed core.service_class_name s ∷ [] else []) ++ calls,
      ends,
    )
