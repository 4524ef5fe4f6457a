-- ===== src/Tasks/Progress.antt =====
-- A worker comes to its end: one that runs its task once, and one whose entry is stopped.
use ra_common_cpp.Base.{
  ℕ, zero, suc, ◌-◌, ◌<◌, ◌≤◌, Bool, true, false, List, [], ◌∷◌, ◌≡◌, refl, ap, ◌∙◌, if◌then◌else◌,
  inl, inr, Bool-cases, arith,
}
use ra_common_cpp.Tasks.{
  TaskConfig, Managed, Phase, sleeping, asking, starting, executing, resting, stopping, completing,
  leaving, notifying, Runner, put_entry, new_entry, push_task, remove_completed, schedule,
  pass_section, is_minus_one, is_positive, advance, mark_stopped, is_at_work,
}
use ra_common_cpp.Tasks.Steps.{Step, Run}

-- Where a worker is after `n` steps of its own; `views k` is its entry as its k-th step finds it, and
-- `answers k` what ShouldStop() would return there.
unfoldable pub after_steps : ℕ → (ℕ → Bool) → (ℕ → Managed) → TaskConfig → Phase → Phase
unfolding advance
after_steps zero answers views config p = p
after_steps (suc n) answers views config p =
    after_steps n (λ k. answers (suc k)) (λ k. views (suc k)) config
      (advance (answers 0) config (views 0) p).1

-- The steps to the end, of a worker that may repeat its task and is stopped, and of one that does not.
steps_left : Bool → Phase → ℕ
steps_left repeats sleeping = if repeats then 4 else 5
steps_left repeats asking = if repeats then 3 else 4
steps_left repeats starting = if repeats then 7 else 3
steps_left repeats executing = if repeats then 6 else 2
steps_left repeats resting = if repeats then 5 else 6
steps_left repeats stopping = 2
steps_left repeats completing = 1
steps_left repeats leaving = 0
steps_left repeats notifying = 0

advance-steps_left :
    (asked : Bool) (config : TaskConfig) (m : Managed) (p : Phase)
    → is_positive config.periodicity_ms ≡ false
    → steps_left false (advance asked config m p).1 ≤ steps_left false p - 1
unfolding advance steps_left
advance-steps_left asked config m p is_once = ground arith

advance-steps_left_stopped :
    (asked : Bool) (config : TaskConfig) (m : Managed) (p : Phase)
    → m.stop ≡ true
    → steps_left true (advance asked config m p).1 ≤ steps_left true p - 1
unfolding advance steps_left
advance-steps_left_stopped asked config m p stopped = ground arith

no_steps_left : (repeats : Bool) (p : Phase) → steps_left repeats p ≡ 0 → is_at_work p ≡ false
unfolding steps_left is_at_work
no_steps_left repeats p none_left = ground arith

once-ends_within :
    (n : ℕ) (answers : ℕ → Bool) (views : ℕ → Managed) (config : TaskConfig) (p : Phase)
    → is_positive config.periodicity_ms ≡ false
    → steps_left false p ≤ n
    → is_at_work (after_steps n answers views config p) ≡ false
unfolding after_steps
once-ends_within zero answers views config p is_once enough = no_steps_left false p (omega arith)
once-ends_within (suc n) answers views config p is_once enough =
    let less' = advance-steps_left (answers 0) config (views 0) p is_once in
    once-ends_within n (λ k. answers (suc k)) (λ k. views (suc k)) config _ is_once (omega arith)

stopped-ends_within :
    (n : ℕ) (answers : ℕ → Bool) (views : ℕ → Managed) (config : TaskConfig) (p : Phase)
    → ((k : ℕ) → (views k).stop ≡ true)
    → steps_left true p ≤ n
    → is_at_work (after_steps n answers views config p) ≡ false
unfolding after_steps
stopped-ends_within zero answers views config p stopped enough = no_steps_left true p (omega arith)
stopped-ends_within (suc n) answers views config p stopped enough =
    let less' = advance-steps_left_stopped (answers 0) config (views 0) p (stopped 0) in
    stopped-ends_within n (λ k. answers (suc k)) (λ k. views (suc k)) config _
      (λ k. stopped (suc k)) (omega arith)

steps_left-bounded : (repeats : Bool) (p : Phase) → steps_left repeats p ≤ 7
unfolding steps_left
steps_left-bounded repeats p = ground arith

-- A worker whose task is not periodic is past the store of Completed after seven steps of its
-- own, wherever it stood and whatever else happens to its entry.
pub after_steps-once :
    (answers : ℕ → Bool) (views : ℕ → Managed) (config : TaskConfig) (p : Phase)
    → is_positive config.periodicity_ms ≡ false
    → is_at_work (after_steps 7 answers views config p) ≡ false
after_steps-once answers views config p is_once =
    once-ends_within 7 answers views config p is_once (steps_left-bounded false p)

-- A worker whose entry is stopped is past the store of Completed after seven steps of its own,
-- wherever it stood, whatever ShouldStop returns and whatever else happens to the entry.
pub after_steps-stopped :
    (answers : ℕ → Bool) (views : ℕ → Managed) (config : TaskConfig) (p : Phase)
    → ((k : ℕ) → (views k).stop ≡ true)
    → is_at_work (after_steps 7 answers views config p) ≡ false
after_steps-stopped answers views config p stopped =
    stopped-ends_within 7 answers views config p stopped (steps_left-bounded true p)

-- No step takes back the stop of an entry.
put_entry-stop :
    (x : ℕ) (m : Managed) (store' : ℕ → Managed) (id : ℕ)
    → ((store' x).stop ≡ true → m.stop ≡ true)
    → (store' id).stop ≡ true
    → (put_entry x m store' id).stop ≡ true
unfolding put_entry
put_entry-stop x m store' id keeps stopped = ground (arith, keeps, ap (λ i. (store' i).stop))

schedule-stop :
    (config : ℕ → TaskConfig) (ids : List ℕ) (store' : ℕ → Managed) (id : ℕ)
    → (store' id).stop ≡ true
    → ((schedule config ids store').0 id).stop ≡ true
unfolding schedule
schedule-stop config [] store' id stopped = stopped
schedule-stop config (x ∷ xs) store' id stopped = elim (Bool-cases (store' x).scheduled) [
  | inl e ↦ rw e (schedule-stop config xs store' id stopped)
  | inr e ↦ rw e (elim (Bool-cases (is_minus_one (config x).periodicity_ms)) [
    | inl f ↦ rw f (schedule-stop config xs _ id (put_entry-stop x _ store' id (λ h. h) stopped))
    | inr f ↦ rw f (schedule-stop config xs _ id (put_entry-stop x _ store' id (λ h. h) stopped))
  ])
]

mark_stopped-stop :
    (ids : List ℕ) (store' : ℕ → Managed) (id : ℕ)
    → (store' id).stop ≡ true
    → (mark_stopped ids store' id).stop ≡ true
unfolding mark_stopped
mark_stopped-stop [] store' id stopped = stopped
mark_stopped-stop (x ∷ xs) store' id stopped =
    mark_stopped-stop xs _ id (put_entry-stop x _ store' id (λ h. refl) stopped)

advance-stop :
    (asked : Bool) (config : TaskConfig) (m : Managed) (p : Phase)
    → (advance asked config m p).0.stop ≡ m.stop
unfolding advance
advance-stop asked config m p = ground arith

new_entry-stop :
    (n : ℕ) (store' : ℕ → Managed) (id : ℕ)
    → id < n
    → (store' id).stop ≡ true
    → (put_entry n new_entry store' id).stop ≡ true
unfolding put_entry
new_entry-stop n store' id old stopped = ground arith

pub Step-stop :
    {s t : Runner} (id : ℕ)
    → Step s t
    → id < s.allocated
    → (s.store id).stop ≡ true
    → (id < t.allocated) × ((t.store id).stop ≡ true)
unfolding push_task pass_section
Step-stop id (Step.adds s) old stopped =
    (omega arith, new_entry-stop s.allocated s.store id old stopped)
Step-stop id (Step.finds_running s on) old stopped = (old, stopped)
Step-stop id (Step.starts s off no_thread) old stopped = (old, stopped)
Step-stop id (Step.passes_once s n seen config some_pass sees) old stopped =
    (old, schedule-stop config (remove_completed seen s.managed) s.store id stopped)
Step-stop id (Step.spawns s before after x config there) old stopped = (old, stopped)
Step-stop id (Step.works s before after w asked there at_work) old stopped = (
  old,
  put_entry-stop w.entry _ s.store id
      (λ h. advance-stop asked w.config (s.store w.entry) w.phase ∙ h) stopped,
)
Step-stop id (Step.leaves s before after w there at_end) old stopped = (old, stopped)
Step-stop id (Step.ends s before after w there at_end) old stopped = (old, stopped)
Step-stop id (Step.shuts_down s can) old stopped = (old, stopped)
Step-stop id (Step.marks s now) old stopped = (old, mark_stopped-stop s.managed s.store id stopped)
Step-stop id (Step.joins s now off) old stopped = (old, stopped)
Step-stop id (Step.awaits s now no_workers) old stopped = (old, stopped)
Step-stop id (Step.clears s now) old stopped = (old, stopped)

-- An entry whose stop was set stays stopped for the rest of any run.
pub Run-stop :
    {s t : Runner} (id : ℕ)
    → Run s t
    → id < s.allocated
    → (s.store id).stop ≡ true
    → (id < t.allocated) × ((t.store id).stop ≡ true)
Run-stop id (Run.here s) old stopped = (old, stopped)
Run-stop id (Run.then_step run step) old stopped =
    let (old', stopped') = Run-stop id run old stopped in Step-stop id step old' stopped'
