-- ===== src/Tasks/Steps.antt =====
-- The steps of the threads that work with a TaskRunner, in any order. A step is one critical section, or
-- one access to an atomic.
use ra_common_cpp.Base.{ℕ, suc, ◌-◌, Bool, true, false, List, [], ◌∷◌, ◌++◌, ◌≡◌, if◌then◌else◌}
use ra_common_cpp.Tasks.{
  TaskConfig, Managed, sleeping, leaving, notifying, Worker, marking, joining, awaiting, clearing,
  returned, completed, Runner, put_entry, push_task, pass_section, advance, mark_stopped,
  is_at_work, can_shut_down,
}

-- The worker that Pass starts; one without a delay goes on to ask.
abbrev pub new_worker : ℕ → TaskConfig → Worker
new_worker id config = record { entry = id; config = config; phase = sleeping }

-- A step of one worker, and its end.
abbrev pub moved : Bool → Worker → (ℕ → Managed) → List Worker → List Worker → Runner → Runner
moved asked w store' before after s =
    let (m, phase') = advance asked w.config (store' w.entry) w.phase in
    record s {
      store = put_entry w.entry m store';
      workers = before ++ record w { phase = phase' } ∷ after;
    }

pub data Step : Runner → Runner → Type 0 where
  -- AddTask, and the test of `running_` in AddTask, Poke, Start and PollLoop.
  adds : (s : Runner) → Step s (push_task s)
  finds_running : (s : Runner) → s.running ≡ true → Step s (record s { passes = suc s.passes })
  -- Start when it was not running. To start while the last poll thread was not joined ends the program.
  starts :
      (s : Runner)
      → s.running ≡ false
      → s.poll_thread ≡ false
      → Step s (record s { running = true; poll_thread = true; passes = suc s.passes })
  -- Pass: its critical section, and a thread for one of its entries. An entry seen Completed is so for good.
  passes_once :
      (s : Runner) (n : ℕ) (seen : ℕ → Bool) (config : ℕ → TaskConfig)
      → s.passes ≡ suc n
      → ((id : ℕ) → seen id ≡ true → (s.store id).status ≡ completed)
      → Step s (pass_section seen config (record s { passes = n }))
  spawns :
      (s : Runner) (before after : List ℕ) (id : ℕ) (config : TaskConfig)
      → s.pending ≡ before ++ id ∷ after
      → Step s (record s {
        pending = before ++ after;
        workers = new_worker id config ∷ s.workers;
        active_workers = suc s.active_workers;
      })
  works :
      (s : Runner) (before after : List Worker) (w : Worker) (asked : Bool)
      → s.workers ≡ before ++ w ∷ after
      → is_at_work w.phase ≡ true
      → Step s (moved asked w s.store before after s)
  -- fetch_sub, after which the last one locks and notifies.
  leaves :
      (s : Runner) (before after : List Worker) (w : Worker)
      → s.workers ≡ before ++ w ∷ after
      → w.phase ≡ leaving
      → Step s (record s {
        workers = before ++ record w { phase = notifying } ∷ after;
        active_workers = s.active_workers - 1;
      })
  ends :
      (s : Runner) (before after : List Worker) (w : Worker)
      → s.workers ≡ before ++ w ∷ after
      → w.phase ≡ notifying
      → Step s (record s { workers = before ++ after })
  -- Shutdown: the exchange of `running_`, the stores of `stop`, the join, the wait and the clear.
  shuts_down :
      (s : Runner)
      → can_shut_down s.shutdown ≡ true
      → Step s (record s { running = false; shutdown = if s.running then marking else joining })
  marks :
      (s : Runner)
      → s.shutdown ≡ marking
      → Step s (record s { store = mark_stopped s.managed s.store; shutdown = joining })
  joins :
      (s : Runner)
      → s.shutdown ≡ joining
      → s.running ≡ false
      → Step s (record s { poll_thread = false; shutdown = awaiting })
  awaits :
      (s : Runner)
      → s.shutdown ≡ awaiting
      → s.active_workers ≡ 0
      → Step s (record s { shutdown = clearing })
  clears :
      (s : Runner) → s.shutdown ≡ clearing → Step s (record s { managed = []; shutdown = returned })

pub data Run : Runner → Runner → Type 0 where
  here : (s : Runner) → Run s s
  then_step : {s t u : Runner} → Run s t → Step t u → Run s u
