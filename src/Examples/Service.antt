-- ===== src/Examples/Service.antt =====
-- The service theorems at a service with an observer and a producer.
use ra_common_cpp.Base.{ℕ, List, refl, true, [], ◌∷◌, none, codes}
use ra_common_cpp.Examples.Crypto.{zeros}
use ra_common_cpp.Service.{ServiceCore, ServiceStatus}
use ra_common_cpp.Service.Updates.{run_updates, run_updates-Changes, told, Changes}

abbrev core : ServiceCore
core = record {
  service_class_name = codes "s";
  registered = true;
  version = none;
  services_dependent_upon = [];
  config = [];
  has_producer = true;
  has_observer = true;
  status = ServiceStatus.not_initialized;
}

abbrev updates : List (ℕ × ServiceStatus)
updates = (0, ServiceStatus.running) ∷ (5, ServiceStatus.running) ∷ (5, ServiceStatus.paused) ∷ []

run_updates-Changes_example :
    Changes ServiceStatus.not_initialized (told (run_updates zeros updates core))
run_updates-Changes_example = run_updates-Changes zeros updates core refl
