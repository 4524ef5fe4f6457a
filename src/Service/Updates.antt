-- ===== src/Service/Updates.antt =====
-- What a service tells of its status.
use ra_common_cpp.Base.{
  Result, ok, err, ℕ, get_or, ◌≡◌, refl, sym, ap, ◌∙◌, inl, inr, true, false, List, [], ◌∷◌, ◌++◌,
  codes, list_eq, Bool-cases, if◌then◌else◌, arith,
}
use ra_common_cpp.Std.Entropy.{Source}
use ra_common_cpp.Route.{current, clone, simple_of, set_route_id}
use ra_common_cpp.Route.Slip.{add_route, next_route}
use ra_common_cpp.Envelope.{add_service_route, ratchet}
use ra_common_cpp.Service.{
  ServiceStatus, ServiceLevel, ServiceCore, Call, status_changed, sent, Drawn, draw, announced,
  announce, status_number, status_eq, report_of, status_envelope, update_status, level_to_string,
  level_from_string,
}

pub level_from_string-to_string : (x : ServiceLevel) → level_from_string (level_to_string x) ≡ x
unfolding level_from_string level_to_string list_eq
level_from_string-to_string ServiceLevel.at_most_once = refl
level_from_string-to_string ServiceLevel.at_least_once = refl
level_from_string-to_string ServiceLevel.exactly_once = refl

-- The status of a number.
status_at : ℕ → ServiceStatus
status_at n =
    get_or
      (ServiceStatus.not_initialized ∷ ServiceStatus.initializing ∷ ServiceStatus.waiting
        ∷ ServiceStatus.starting ∷ ServiceStatus.running ∷ ServiceStatus.verified
        ∷ ServiceStatus.partially_running ∷ ServiceStatus.degraded_running ∷ ServiceStatus.unstable
        ∷ ServiceStatus.pausing ∷ ServiceStatus.paused ∷ ServiceStatus.unpausing
        ∷ ServiceStatus.shutting_down ∷ ServiceStatus.gracefully_shutting_down
        ∷ ServiceStatus.shutdown ∷ ServiceStatus.gracefully_shutdown ∷ ServiceStatus.restarting
        ∷ ServiceStatus.unavailable ∷ ServiceStatus.error ∷ [])
      n ServiceStatus.error

status_at-status_number : (s : ServiceStatus) → status_at (status_number s) ≡ s
unfolding status_at status_number
status_at-status_number ServiceStatus.not_initialized = refl
status_at-status_number ServiceStatus.initializing = refl
status_at-status_number ServiceStatus.waiting = refl
status_at-status_number ServiceStatus.starting = refl
status_at-status_number ServiceStatus.running = refl
status_at-status_number ServiceStatus.verified = refl
status_at-status_number ServiceStatus.partially_running = refl
status_at-status_number ServiceStatus.degraded_running = refl
status_at-status_number ServiceStatus.unstable = refl
status_at-status_number ServiceStatus.pausing = refl
status_at-status_number ServiceStatus.paused = refl
status_at-status_number ServiceStatus.unpausing = refl
status_at-status_number ServiceStatus.shutting_down = refl
status_at-status_number ServiceStatus.gracefully_shutting_down = refl
status_at-status_number ServiceStatus.shutdown = refl
status_at-status_number ServiceStatus.gracefully_shutdown = refl
status_at-status_number ServiceStatus.restarting = refl
status_at-status_number ServiceStatus.unavailable = refl
status_at-status_number ServiceStatus.error = refl

pub status_eq→eq : (a b : ServiceStatus) → status_eq a b ≡ true → a ≡ b
unfolding status_eq
status_eq→eq a b h =
    let same : status_number a ≡ status_number b = ground arith in
    sym (status_at-status_number a) ∙ ap status_at same ∙ status_at-status_number b

pub status_eq_self : (a : ServiceStatus) → status_eq a a ≡ true
unfolding status_eq
status_eq_self a = ground arith

-- UpdateStatus to another status, with an observer and a producer, sets the status and tells the
-- observer, and then, if the ids could be drawn, it sends the report in an envelope whose current
-- route is that of the notification service with the id of the slip.
pub update_status-calls :
    (source : Source) (call : ℕ) (s : ServiceStatus) (core : ServiceCore) (drawn : Drawn) (last : ℕ)
    → status_eq core.status s ≡ false
    → core.has_observer ≡ true
    → core.has_producer ≡ true
    → draw source call ≡ ok (drawn, last)
    → let after = update_status source call s core in
      (after.0.status ≡ s)
      × (after.1
          ≡ status_changed core.service_class_name s
            ∷ sent (status_envelope drawn) (report_of after.0)
            ∷ [])
      × (after.2 ≡ ok last)
      × ((status_envelope drawn).route
          ≡ current (
              simple_of
                (codes "ra.notification.NotificationService")
                (codes "PUBLISH")
                drawn.drawn_slip))
unfolding update_status announce announced status_envelope ratchet add_service_route add_route
    next_route clone simple_of set_route_id
update_status-calls source call s core drawn last changed observed produced draws =
    rw (changed, observed, produced, draws) (refl, refl, refl, refl)

-- The statuses that the observer hears of.
abbrev pub told : List Call → List ServiceStatus
told [] = []
told (status_changed name s ∷ calls) = s ∷ told calls
told (sent e r ∷ calls) = told calls

-- Calls of UpdateStatus, each with the number of the next call of getentropy; a caller goes on also
-- after one that threw.
abbrev pub run_updates : Source → List (ℕ × ServiceStatus) → ServiceCore → List Call
run_updates source [] core = []
run_updates source ((call, s) ∷ ss) core =
    let after = update_status source call s core in after.1 ++ run_updates source ss after.0

-- Each status differs from the one before.
abbrev pub Changes : ServiceStatus → List ServiceStatus → Type 0
Changes previous [] = Unit {0}
Changes previous (s ∷ ss) = (status_eq previous s ≡ false) × Changes s ss

-- UpdateStatus sets the status also where it throws, and called again with the same status it
-- changes nothing and makes no call.
pub update_status_twice :
    (source : Source) (call again : ℕ) (s : ServiceStatus) (core : ServiceCore)
    → ((update_status source call s core).0.status ≡ s)
      × (update_status source again s (update_status source call s core).0
          ≡ ((update_status source call s core).0, [], ok again))
unfolding update_status
update_status_twice source call again s core = elim (Bool-cases (status_eq core.status s)) [
  | inl e ↦ rw e (status_eq→eq core.status s e, rw e refl)
  | inr e ↦ rw e (refl, rw (status_eq_self s) refl)
]

kept_observer :
    (source : Source) (call : ℕ) (s : ServiceStatus) (core : ServiceCore)
    → (update_status source call s core).0.has_observer ≡ core.has_observer
unfolding update_status
kept_observer source call s core = elim (Bool-cases (status_eq core.status s)) [
  | inl e ↦ rw e refl
  | inr e ↦ rw e refl
]

told-announced :
    (core : ServiceCore) (calls : List Call) (r : Result (Drawn × ℕ))
    → told ((announced core r).0 ++ calls) ≡ told calls
unfolding announced
told-announced core calls (ok (drawn, last)) = refl
told-announced core calls (err x) = refl

-- Whatever is drawn, the observer hears nothing of it.
told-announce :
    (source : Source) (call : ℕ) (core : ServiceCore) (calls : List Call)
    → told ((announce source call core).0 ++ calls) ≡ told calls
unfolding announce
told-announce source call core calls = elim (Bool-cases core.has_producer) [
  | inr p ↦ rw p refl
  | inl p ↦ rw p (told-announced core calls (draw source call))
]

told-update_status :
    (source : Source) (call : ℕ) (s : ServiceStatus) (core : ServiceCore) (calls : List Call)
    → core.has_observer ≡ true
    → told ((update_status source call s core).1 ++ calls)
      ≡ (if status_eq core.status s then told calls else s ∷ told calls)
unfolding update_status
told-update_status source call s core calls observed = elim (Bool-cases (status_eq core.status s)) [
  | inl e ↦ rw e refl
  | inr e ↦
      rw (e, observed)
        (ap (λ ss. s ∷ ss) (told-announce source call (record core { status = s }) calls))
]

Changes-from : (p s : ServiceStatus) (ss : List ServiceStatus) → p ≡ s → Changes s ss → Changes p ss
Changes-from p s ss e h = rw e h

-- Over any calls of UpdateStatus, also such that throw since no random id can be drawn, an
-- observer hears only of changes: each status that it hears of differs from the one before, and
-- the first from the status that the service began with.
pub run_updates-Changes :
    (source : Source) (ss : List (ℕ × ServiceStatus)) (core : ServiceCore)
    → core.has_observer ≡ true
    → Changes core.status (told (run_updates source ss core))
run_updates-Changes source [] core observed = tt
run_updates-Changes source ((call, s) ∷ ss) core observed =
    let after = (update_status source call s core).0 in
    let set : after.status ≡ s = (update_status_twice source call call s core).0 in
    let later : Changes s (told (run_updates source ss after)) =
      rw set at
        (run_updates-Changes source ss after (kept_observer source call s core ∙ observed)) in
    rw (told-update_status source call s core (run_updates source ss after) observed)
      (elim (Bool-cases (status_eq core.status s)) [
        | inl e ↦ rw e (Changes-from core.status s _ (status_eq→eq core.status s e) later)
        | inr e ↦ rw e (e, later)
      ])
