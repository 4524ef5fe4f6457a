-- ===== src/Tasks.antt =====
-- include/ra_common/tasks: tasks, and the runner. `Runner` is the runner's state with the work that its
-- threads have in hand: `passes` are the threads that found `running_` set and are to call Pass, `pending`
-- is what the calls of Pass have in their `to_schedule`, and `workers` are the detached threads. A Managed
-- entry is shared, so that entries stand in a store and the vector `managed_` holds their places in it.
pub mod Counts
pub mod Steps
pub mod Invariant
pub mod Progress
use ra_common_cpp.Base.{
  ℕ, zero, suc, ◌+◌, ◌-◌, Bool, true, false, ◌||◌, not, List, [], ◌∷◌, ◌++◌, Option, none, some,
  Bytes, ◌==◌, leb, if◌then◌else◌,
}
use ra_common_cpp.Std.Numbers.{ℤ, pos, negsuc}

pub data TaskStatus : Type 0 where
  ready running completed : TaskStatus

pub record TaskConfig : Type 0 where
  pub task_name : Bytes
  pub periodicity_ms : ℤ
  pub delayed : Bool
  pub delay_ms : ℤ
  pub fixed_delay : Bool
  pub long_running : Bool

unfoldable pub once : Bytes → TaskConfig
once name = record {
  task_name = name;
  periodicity_ms = pos 0;
  delayed = false;
  delay_ms = pos 0;
  fixed_delay = false;
  long_running = false;
}

unfoldable pub periodic : Bytes → ℤ → TaskConfig
unfolding once
periodic name period_ms = record (once name) { periodicity_ms = period_ms }

pub record Managed : Type 0 where
  pub status : TaskStatus
  pub stop : Bool
  pub scheduled : Bool

-- Where a worker stands: before a sleep, before it asks whether to stop, before the store of Running,
-- before Execute, before the store of Ready, before OnStop, before the store of Completed, before the
-- fetch_sub of active_workers_, and before the notification.
pub data Phase : Type 0 where
  sleeping asking starting executing resting stopping completing leaving notifying : Phase

pub record Worker : Type 0 where
  pub entry : ℕ
  pub config : TaskConfig
  pub phase : Phase

-- Where Shutdown stands, which one thread calls at a time: not called, before the stores of `stop`, before the join of the poll thread, in the
-- wait for the workers, before the clear, and returned.
pub data ShutdownPhase : Type 0 where
  not_called marking joining awaiting clearing returned : ShutdownPhase

pub record Runner : Type 0 where
  pub store : ℕ → Managed
  pub allocated : ℕ
  pub managed : List ℕ
  pub running : Bool
  pub poll_thread : Bool
  pub passes : ℕ
  pub pending : List ℕ
  pub workers : List Worker
  pub active_workers : ℕ
  pub shutdown : ShutdownPhase

unfoldable pub put_entry : ℕ → Managed → (ℕ → Managed) → ℕ → Managed
put_entry id m store' x = if x == id then m else store' x

-- The entry that AddTask makes.
abbrev pub new_entry : Managed
new_entry = record { status = ready; stop = false; scheduled = false }

unfoldable pub new_runner : Runner
new_runner = record {
  store = λ id. new_entry;
  allocated = 0;
  managed = [];
  running = false;
  poll_thread = false;
  passes = 0;
  pending = [];
  workers = [];
  active_workers = 0;
  shutdown = not_called;
}

-- The critical section of AddTask.
unfoldable pub push_task : Runner → Runner
unfolding put_entry
push_task s = record s {
  store = put_entry s.allocated new_entry s.store;
  allocated = suc s.allocated;
  managed = s.managed ++ s.allocated ∷ [];
}

-- `std::remove_if` of Pass; `seen id` tells whether the entry was seen Completed.
unfoldable pub remove_completed : (ℕ → Bool) → List ℕ → List ℕ
remove_completed seen [] = []
remove_completed seen (id ∷ ids) =
    let rest = remove_completed seen ids in if seen id then rest else id ∷ rest

unfoldable pub is_minus_one : ℤ → Bool
is_minus_one (pos n) = false
is_minus_one (negsuc n) = n == 0

-- The loop of Pass over `managed_`, with the store and `to_schedule` that it leaves. `config id` is what
-- Config() returned. An entry of periodicity -1 has its flag put back.
unfoldable pub schedule : (ℕ → TaskConfig) → List ℕ → (ℕ → Managed) → (ℕ → Managed) × List ℕ
unfolding put_entry is_minus_one
schedule config [] store' = (store', [])
schedule config (id ∷ ids) store' =
    let skip = schedule config ids store' in
    let put_back =
      schedule config ids (put_entry id (record (store' id) { scheduled = false }) store') in
    let (after, to_schedule) =
      schedule config ids (put_entry id (record (store' id) { scheduled = true }) store') in
    if (store' id).scheduled
    then skip
    else if is_minus_one (config id).periodicity_ms
    then put_back
    else (after, id ∷ to_schedule)

-- The critical section of Pass.
unfoldable pub pass_section : (ℕ → Bool) → (ℕ → TaskConfig) → Runner → Runner
unfolding remove_completed schedule
pass_section seen config s =
    let kept = remove_completed seen s.managed in
    let (after, to_schedule) = schedule config kept s.store in
    record s { store = after; managed = kept; pending = s.pending ++ to_schedule }

unfoldable pub is_positive : ℤ → Bool
is_positive (pos n) = not (n == 0)
is_positive (negsuc n) = false

-- What a worker does to its entry and where it goes on; `asked` is what ShouldStop() returned. The
-- phases after the store of Completed have nothing to do with the entry.
unfoldable pub advance : Bool → TaskConfig → Managed → Phase → Managed × Phase
unfolding is_positive
advance asked config m sleeping = (m, asking)
advance asked config m asking = (m, if m.stop || asked then stopping else starting)
advance asked config m starting = (record m { status = running }, executing)
advance asked config m executing =
    (m, if is_positive config.periodicity_ms then resting else completing)
advance asked config m resting = (record m { status = ready }, sleeping)
advance asked config m stopping = (m, completing)
advance asked config m completing = (record m { status = completed }, leaving)
advance asked config m leaving = (m, leaving)
advance asked config m notifying = (m, notifying)

-- Whether a worker has its entry to work on.
unfoldable pub is_at_work : Phase → Bool
is_at_work leaving = false
is_at_work notifying = false
is_at_work phase = true

-- `for (auto& m : managed_) m->stop.store(true)`
unfoldable pub mark_stopped : List ℕ → (ℕ → Managed) → ℕ → Managed
unfolding put_entry
mark_stopped [] store' = store'
mark_stopped (id ∷ ids) store' =
    mark_stopped ids (put_entry id (record (store' id) { stop = true }) store')

unfoldable pub can_shut_down : ShutdownPhase → Bool
can_shut_down not_called = true
can_shut_down returned = true
can_shut_down phase = false

-- Status(); `poll_thread` tells whether poll_thread_ is joinable.
pub data RunnerStatus : Type 0 where
  is_running is_stopping is_shutdown : RunnerStatus

unfoldable pub status_of : Runner → RunnerStatus
status_of s =
    if not (s.running || s.poll_thread)
    then is_shutdown
    else if s.running
    then is_running
    else is_stopping

-- TaskCount()
unfoldable pub task_count : List ℕ → ℕ
task_count [] = 0
task_count (id ∷ ids) = suc (task_count ids)
