-- ===== src/Examples/Tasks.antt =====
-- Runs of a task runner.
use ra_common_cpp.Base.{◌+◌, ◌≤◌, ◌≡◌, refl, true, false, [], ◌∷◌, codes}
use ra_common_cpp.Std.Numbers.{pos}
use ra_common_cpp.Tasks.{
  TaskConfig, once, Managed, Phase, sleeping, asking, starting, executing, completing, notifying,
  leaving, new_entry, mark_stopped, joining, awaiting, clearing, returned, Worker, Runner,
  new_runner, push_task, pass_section, put_entry, advance, is_at_work,
}
use ra_common_cpp.Tasks.Steps.{Step, Run, moved, new_worker}
use ra_common_cpp.Tasks.Counts.{count_of, workers_of}
use ra_common_cpp.Tasks.Invariant.{Run-one_worker, Run-awaited}
use ra_common_cpp.Tasks.Progress.{after_steps, after_steps-stopped}

abbrev job : TaskConfig
job = record {
  task_name = codes "job";
  periodicity_ms = pos 10;
  delayed = false;
  delay_ms = pos 0;
  fixed_delay = false;
  long_running = false;
}

-- Start, a task, a pass and a worker.
abbrev started : Runner
started = record new_runner { running = true; poll_thread = true; passes = 1 }

abbrev with_task : Runner
with_task = push_task started

abbrev passed : Runner
passed = pass_section (λ id. false) (λ id. job) (record with_task { passes = 0 })

abbrev spawned : Runner
spawned = record passed {
  pending = [];
  workers = new_worker 0 job ∷ passed.workers;
  active_workers = 1;
}

spawning : Run new_runner spawned
unfolding new_runner push_task pass_section
spawning =
    Run.then_step
      (Run.then_step
        (Run.then_step (Run.then_step (Run.here new_runner) (Step.starts new_runner refl refl))
          (Step.adds started))
        (Step.passes_once with_task 0 (λ id. false) (λ id. job) refl (λ id e. cc)))
      (Step.spawns passed [] [] 0 job refl)

Run-one_worker_example : count_of 0 spawned.pending + workers_of 0 spawned.workers ≤ 1
Run-one_worker_example = Run-one_worker spawned spawning 0

-- The worker runs its task once and leaves.
abbrev worker_at : Phase → Worker
worker_at p = record { entry = 0; config = once (codes "one"); phase = p }

abbrev begun : Runner
begun = record spawned { workers = worker_at sleeping ∷ [] }

abbrev worked : Phase → Runner → Runner
worked p s = moved false (worker_at p) s.store [] [] s

abbrev done_work : Runner
done_work =
    worked completing (worked executing (worked starting (worked asking (worked sleeping begun))))

abbrev gone : Runner
gone = record done_work { workers = worker_at notifying ∷ []; active_workers = 0 }

begins : Run new_runner begun
unfolding new_runner push_task pass_section
begins =
    Run.then_step
      (Run.then_step
        (Run.then_step (Run.then_step (Run.here new_runner) (Step.starts new_runner refl refl))
          (Step.adds started))
        (Step.passes_once with_task 0 (λ id. false) (λ id. job) refl (λ id e. cc)))
      (Step.spawns passed [] [] 0 (once (codes "one")) refl)

work :
    (p : Phase) (s : Runner)
    → Run new_runner s
    → s.workers ≡ worker_at p ∷ []
    → is_at_work p ≡ true
    → Run new_runner (worked p s)
work p s run there at_work =
    Run.then_step run (Step.works s [] [] (worker_at p) false there at_work)

goes : Run new_runner gone
unfolding new_runner push_task pass_section advance is_at_work once put_entry
goes =
    Run.then_step
      (work completing _
        (work executing _
          (work starting _ (work asking _ (work sleeping begun begins refl refl) refl refl) refl
            refl)
          refl refl)
        refl refl)
      (Step.leaves done_work [] [] (worker_at leaving) refl refl)

Run-awaited_example : (worker_at notifying).phase ≡ notifying
Run-awaited_example = Run-awaited gone (worker_at notifying) [] [] goes refl refl

abbrev stopped_entry : Managed
stopped_entry = record new_entry { stop = true }

after_steps-stopped_example :
    is_at_work (after_steps 7 (λ k. false) (λ k. stopped_entry) job executing) ≡ false
after_steps-stopped_example =
    after_steps-stopped (λ k. false) (λ k. stopped_entry) job executing (λ k. refl)

-- Shutdown returns while a pass has still to start its worker.
abbrev stopping_runner : Runner
stopping_runner = record passed {
  store = mark_stopped passed.managed passed.store;
  running = false;
  shutdown = joining;
}

abbrev outlived : Runner
outlived = record stopping_runner {
  poll_thread = false;
  shutdown = returned;
  managed = [];
  pending = [];
  workers = new_worker 0 job ∷ [];
  active_workers = 1;
}

abbrev waited : Runner
waited = record stopping_runner { poll_thread = false; shutdown = clearing }

outliving : Run stopping_runner outlived
unfolding new_runner push_task pass_section
outliving =
    Run.then_step
      (Run.then_step
        (Run.then_step
          (Run.then_step (Run.here stopping_runner) (Step.joins stopping_runner refl refl))
          (Step.awaits (record stopping_runner { poll_thread = false; shutdown = awaiting }) refl
            refl))
        (Step.clears waited refl))
      (Step.spawns (record waited { managed = []; shutdown = returned }) [] [] 0 job refl)
