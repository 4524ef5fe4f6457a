-- ===== src/Tasks/Invariant.antt =====
-- What holds of a runner between two steps: an entry is scheduled once, and active_workers_ counts the
-- workers that have not left.
use ra_common_cpp.Base.{
  ℕ, suc, ◌+◌, ◌-◌, ◌≤◌, Bool, true, false, not, List, [], ◌∷◌, ◌++◌, ◌≡◌, refl, sym, ap, ◌∙◌, ◌==◌,
  arith,
}
use ra_common_cpp.Tasks.{
  TaskConfig, Managed, Phase, leaving, notifying, Worker, Runner, new_runner, new_entry, push_task,
  remove_completed, schedule, pass_section, advance, is_at_work,
}
use ra_common_cpp.Tasks.Steps.{Step, Run, new_worker, moved}
use ra_common_cpp.Tasks.Counts.{
  bit, count_of, workers_of, is_notifying, counted, count_of-++, remove_completed-count,
  schedule-once, schedule-others, put_entry-kept, mark_stopped-scheduled, advance-scheduled,
  advance-is_notifying, workers_of-moved, counted-moved, workers_of-ended, counted-ended,
}

-- Of the store, the number of its entries, `managed_`, `to_schedule` of the passes, the workers and their
-- number.
pub record Fits (store' : ℕ → Managed) (n : ℕ) (ids to_schedule : List ℕ) (ws : List Worker)
    (active : ℕ) : Type 0 where
  pub scheduled_once :
      (id : ℕ) → count_of id to_schedule + workers_of id ws ≤ bit (store' id).scheduled
  pub fresh_unscheduled : (id : ℕ) → n ≤ id → (store' id).scheduled ≡ false
  pub fresh_unmanaged : (id : ℕ) → n ≤ id → count_of id ids ≡ 0
  pub active_counted : active ≡ counted ws

abbrev pub Inv : Runner → Type 0
Inv s = Fits s.store s.allocated s.managed s.pending s.workers s.active_workers

new_runner-Inv : Inv new_runner
unfolding new_runner
new_runner-Inv = record {
  scheduled_once = λ id. omega arith;
  fresh_unscheduled = λ id h. refl;
  fresh_unmanaged = λ id h. refl;
  active_counted = refl;
}

-- Only the flags matter, and a step that keeps them can be made with any store.
same_flags :
    {store' after : ℕ → Managed} {n : ℕ} {ids to_schedule : List ℕ} {ws : List Worker} {active : ℕ}
    → ((id : ℕ) → (after id).scheduled ≡ (store' id).scheduled)
    → Fits store' n ids to_schedule ws active
    → Fits after n ids to_schedule ws active
same_flags same h = record {
  scheduled_once = λ id. rw (same id) (h.scheduled_once id);
  fresh_unscheduled = λ id new. same id ∙ h.fresh_unscheduled id new;
  fresh_unmanaged = h.fresh_unmanaged;
  active_counted = h.active_counted;
}

same_workers :
    {store' : ℕ → Managed} {n : ℕ} {ids to_schedule : List ℕ} {ws ws' : List Worker} {active : ℕ}
    (active' : ℕ)
    → ((id : ℕ) → workers_of id ws' ≤ workers_of id ws)
    → active' + counted ws ≡ counted ws' + active
    → Fits store' n ids to_schedule ws active
    → Fits store' n ids to_schedule ws' active'
same_workers active' fewer number h = record {
  scheduled_once = λ id. let before = h.scheduled_once id in let now = fewer id in omega arith;
  fresh_unscheduled = h.fresh_unscheduled;
  fresh_unmanaged = h.fresh_unmanaged;
  active_counted = let before = h.active_counted in omega arith;
}

push_task-Inv : (s : Runner) → Inv s → Inv (push_task s)
unfolding push_task
push_task-Inv s h =
    let flags = λ (id : ℕ).
      put_entry-kept s.allocated new_entry s.store id
        (sym (h.fresh_unscheduled s.allocated (omega arith))) in
    record {
      scheduled_once = λ id. rw (flags id) (h.scheduled_once id);
      fresh_unscheduled = λ id new. flags id ∙ h.fresh_unscheduled id (omega arith);
      fresh_unmanaged = λ id new.
          let before = h.fresh_unmanaged id (omega arith) in
          rw (count_of-++ id s.managed (s.allocated ∷ [])) (ground arith);
      active_counted = h.active_counted;
    }

pass_section-Inv :
    (seen : ℕ → Bool) (config : ℕ → TaskConfig) (s : Runner)
    → Inv s
    → Inv (pass_section seen config s)
unfolding pass_section
pass_section-Inv seen config s h =
    let kept = remove_completed seen s.managed in
    record {
      scheduled_once = λ id.
          let once' = schedule-once config kept s.store id in
          let before = h.scheduled_once id in
          rw (count_of-++ id s.pending (schedule config kept s.store).1) (omega arith);
      fresh_unscheduled = λ id new.
          ap (λ m. m.scheduled) (schedule-others config kept s.store id (kept_fresh id new))
          ∙ h.fresh_unscheduled id new;
      fresh_unmanaged = kept_fresh;
      active_counted = h.active_counted;
    }
  where
    kept_fresh : (id : ℕ) → s.allocated ≤ id → count_of id (remove_completed seen s.managed) ≡ 0
    kept_fresh id new =
        let fewer = remove_completed-count seen s.managed id in
        let before = h.fresh_unmanaged id new in omega arith

spawn-Inv :
    (s : Runner) (before after : List ℕ) (id : ℕ) (config : TaskConfig)
    → Inv s
    → s.pending ≡ before ++ id ∷ after
    → Fits s.store s.allocated s.managed
        (before ++ after)
        (new_worker id config ∷ s.workers)
        (suc s.active_workers)
spawn-Inv s before after id config h there = record {
  scheduled_once = λ x.
      let pending' : count_of x s.pending ≡ count_of x before + (bit (id == x) + count_of x after) =
        ap (count_of x) there ∙ count_of-++ x before (id ∷ after) in
      let once' = h.scheduled_once x in rw (count_of-++ x before after) (omega arith);
  fresh_unscheduled = h.fresh_unscheduled;
  fresh_unmanaged = h.fresh_unmanaged;
  active_counted = let number = h.active_counted in omega arith;
}

moved-Inv :
    (s : Runner) (before after : List Worker) (w : Worker) (asked : Bool)
    → Inv s
    → s.workers ≡ before ++ w ∷ after
    → is_at_work w.phase ≡ true
    → Inv (moved asked w s.store before after s)
moved-Inv s before after w asked h there at_work =
    let p = (advance asked w.config (s.store w.entry) w.phase).1 in
    let number = counted-moved s.workers before after w there p in
    let same = advance-is_notifying asked w.config (s.store w.entry) w.phase at_work in
    same_flags
      (λ id.
        put_entry-kept w.entry _ s.store id
          (advance-scheduled asked w.config (s.store w.entry) w.phase))
      (same_workers s.active_workers (workers_of-moved s.workers before after w there p)
        (let counts = ap (λ b. bit (not b)) same in let active = h.active_counted in omega arith) h)

leaves-Inv :
    (s : Runner) (before after : List Worker) (w : Worker)
    → Inv s
    → s.workers ≡ before ++ w ∷ after
    → w.phase ≡ leaving
    → Fits s.store s.allocated s.managed s.pending
        (before ++ record w { phase = notifying } ∷ after)
        (s.active_workers - 1)
leaves-Inv s before after w h there at_end =
    let number = counted-moved s.workers before after w there notifying in
    let was_counted : bit (not (is_notifying w.phase)) ≡ 1 =
      ap (λ p. bit (not (is_notifying p))) at_end in
    let active = h.active_counted in
    same_workers (s.active_workers - 1) (workers_of-moved s.workers before after w there notifying)
      (omega arith) h

ends-Inv :
    (s : Runner) (before after : List Worker) (w : Worker)
    → Inv s
    → s.workers ≡ before ++ w ∷ after
    → w.phase ≡ notifying
    → Fits s.store s.allocated s.managed s.pending (before ++ after) s.active_workers
ends-Inv s before after w h there at_end =
    let number = counted-ended s.workers before after w there in
    let not_counted : bit (not (is_notifying w.phase)) ≡ 0 =
      ap (λ p. bit (not (is_notifying p))) at_end in
    same_workers s.active_workers (workers_of-ended s.workers before after w there) (omega arith) h

clears-Inv : (s : Runner) → Inv s → Fits s.store s.allocated [] s.pending s.workers s.active_workers
clears-Inv s h = record {
  scheduled_once = h.scheduled_once;
  fresh_unscheduled = h.fresh_unscheduled;
  fresh_unmanaged = λ id new. refl;
  active_counted = h.active_counted;
}

pub Step-Inv : {s t : Runner} → Inv s → Step s t → Inv t
Step-Inv h (Step.adds s) = push_task-Inv s h
Step-Inv h (Step.finds_running s on) = h
Step-Inv h (Step.starts s off no_thread) = h
Step-Inv h (Step.passes_once s n seen config some_pass sees) =
    pass_section-Inv seen config (record s { passes = n }) h
Step-Inv h (Step.spawns s before after id config there) = spawn-Inv s before after id config h there
Step-Inv h (Step.works s before after w asked there at_work) =
    moved-Inv s before after w asked h there at_work
Step-Inv h (Step.leaves s before after w there at_end) = leaves-Inv s before after w h there at_end
Step-Inv h (Step.ends s before after w there at_end) = ends-Inv s before after w h there at_end
Step-Inv h (Step.shuts_down s can) = h
Step-Inv h (Step.marks s now) = same_flags (mark_stopped-scheduled s.managed s.store) h
Step-Inv h (Step.joins s now off) = h
Step-Inv h (Step.awaits s now no_workers) = h
Step-Inv h (Step.clears s now) = clears-Inv s h

pub Run-Inv : {s t : Runner} → Inv s → Run s t → Inv t
Run-Inv h (Run.here s) = h
Run-Inv h (Run.then_step run step) = Step-Inv (Run-Inv h run) step

-- In every run of a task runner, in any order of the threads, an entry has one worker at most,
-- and none while a call of Pass has it in hand.
pub Run-one_worker :
    (s : Runner) → Run new_runner s → (id : ℕ) → count_of id s.pending + workers_of id s.workers ≤ 1
Run-one_worker s run id = let once' = (Run-Inv new_runner-Inv run).scheduled_once id in ground arith

not_counted : (p : Phase) → bit (not (is_notifying p)) ≡ 0 → p ≡ notifying
not_counted p h = ground arith

-- In every run of a task runner, when active_workers_ is 0, which ends the wait of Shutdown, each
-- worker that there still is has passed its fetch_sub and has only to notify.
pub Run-awaited :
    (s : Runner) (w : Worker) (before after : List Worker)
    → Run new_runner s
    → s.active_workers ≡ 0
    → s.workers ≡ before ++ w ∷ after
    → w.phase ≡ notifying
Run-awaited s w before after run done there =
    let number = counted-ended s.workers before after w there in
    let active = (Run-Inv new_runner-Inv run).active_counted in not_counted w.phase (omega arith)
