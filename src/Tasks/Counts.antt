-- ===== src/Tasks/Counts.antt =====
-- Counts of entries and workers, and what the parts of a step do to the flag of an entry.
use ra_common_cpp.Base.{
  ℕ, ◌+◌, ◌≤◌, Bool, true, false, not, List, [], ◌∷◌, ◌++◌, ◌≡◌, refl, ap, ◌∙◌, ◌==◌, inl, inr,
  Bool-cases, arith,
}
use ra_common_cpp.Tasks.{
  TaskConfig, Managed, Phase, notifying, Worker, put_entry, is_minus_one, remove_completed,
  schedule, advance, mark_stopped, is_at_work,
}

abbrev pub bit : Bool → ℕ
bit true = 1
bit false = 0

abbrev pub count_of : ℕ → List ℕ → ℕ
count_of id [] = 0
count_of id (x ∷ xs) = bit (x == id) + count_of id xs

abbrev pub workers_of : ℕ → List Worker → ℕ
workers_of id [] = 0
workers_of id (w ∷ ws) = bit (w.entry == id) + workers_of id ws

abbrev pub is_notifying : Phase → Bool
is_notifying notifying = true
is_notifying phase = false

abbrev pub counted : List Worker → ℕ
counted [] = 0
counted (w ∷ ws) = bit (not (is_notifying w.phase)) + counted ws

pub count_of-++ :
    (id : ℕ) (xs ys : List ℕ) → count_of id (xs ++ ys) ≡ count_of id xs + count_of id ys
count_of-++ id [] ys = omega arith
count_of-++ id (x ∷ xs) ys = rw (count_of-++ id xs ys) (omega arith)

pub workers_of-++ :
    (id : ℕ) (xs ys : List Worker) → workers_of id (xs ++ ys) ≡ workers_of id xs + workers_of id ys
workers_of-++ id [] ys = omega arith
workers_of-++ id (w ∷ ws) ys = rw (workers_of-++ id ws ys) (omega arith)

pub counted-++ : (xs ys : List Worker) → counted (xs ++ ys) ≡ counted xs + counted ys
counted-++ [] ys = omega arith
counted-++ (w ∷ ws) ys = rw (counted-++ ws ys) (omega arith)

pub remove_completed-count :
    (seen : ℕ → Bool) (ids : List ℕ) (id : ℕ)
    → count_of id (remove_completed seen ids) ≤ count_of id ids
unfolding remove_completed
remove_completed-count seen [] id = omega arith
remove_completed-count seen (x ∷ xs) id = ground (arith, remove_completed-count seen xs id)

pub put_entry-kept :
    (x : ℕ) (m : Managed) (store' : ℕ → Managed) (id : ℕ)
    → m.scheduled ≡ (store' x).scheduled
    → (put_entry x m store' id).scheduled ≡ (store' id).scheduled
unfolding put_entry
put_entry-kept x m store' id kept = ground (arith, ap (λ i. (store' i).scheduled))

put_back-scheduled :
    (x : ℕ) (store' : ℕ → Managed) (id : ℕ)
    → (store' x).scheduled ≡ false
    → bit (store' id).scheduled
      ≤ bit (put_entry x (record (store' x) { scheduled = false }) store' id).scheduled
unfolding put_entry
put_back-scheduled x store' id e = ground (arith, ap (λ i. (store' i).scheduled))

put_on-scheduled :
    (x : ℕ) (store' : ℕ → Managed) (id : ℕ)
    → (store' x).scheduled ≡ false
    → bit (x == id) + bit (store' id).scheduled
      ≤ bit (put_entry x (record (store' x) { scheduled = true }) store' id).scheduled
unfolding put_entry
put_on-scheduled x store' id e = ground (arith, ap (λ i. (store' i).scheduled))

-- The loop schedules an entry at most once, and only one that was not scheduled.
pub schedule-once :
    (config : ℕ → TaskConfig) (ids : List ℕ) (store' : ℕ → Managed) (id : ℕ)
    → count_of id (schedule config ids store').1 + bit (store' id).scheduled
      ≤ bit ((schedule config ids store').0 id).scheduled
unfolding schedule
schedule-once config [] store' id = omega arith
schedule-once config (x ∷ xs) store' id = elim (Bool-cases (store' x).scheduled) [
  | inl e ↦ rw e (schedule-once config xs store' id)
  | inr e ↦ rw e (elim (Bool-cases (is_minus_one (config x).periodicity_ms)) [
    | inl f ↦ rw f (
        let rest =
          schedule-once config xs (put_entry x (record (store' x) { scheduled = false }) store')
            id in
        let now = put_back-scheduled x store' id e in omega arith)
    | inr f ↦ rw f (
        let rest =
          schedule-once config xs (put_entry x (record (store' x) { scheduled = true }) store')
            id in
        let now = put_on-scheduled x store' id e in omega arith)
  ])
]

put_entry-other :
    (x : ℕ) (m : Managed) (store' : ℕ → Managed) (id : ℕ)
    → x == id ≡ false
    → put_entry x m store' id ≡ store' id
unfolding put_entry
put_entry-other x m store' id other = ground arith

pub schedule-others :
    (config : ℕ → TaskConfig) (ids : List ℕ) (store' : ℕ → Managed) (id : ℕ)
    → count_of id ids ≡ 0
    → (schedule config ids store').0 id ≡ store' id
unfolding schedule
schedule-others config [] store' id none_of = refl
schedule-others config (x ∷ xs) store' id none_of =
    let other : x == id ≡ false = ground arith in
    let none_of' : count_of id xs ≡ 0 = omega arith in
    elim (Bool-cases (store' x).scheduled) [
      | inl e ↦ rw e (schedule-others config xs store' id none_of')
      | inr e ↦ rw e (elim (Bool-cases (is_minus_one (config x).periodicity_ms)) [
        | inl f ↦
            rw f (schedule-others config xs _ id none_of' ∙ put_entry-other x _ store' id other)
        | inr f ↦
            rw f (schedule-others config xs _ id none_of' ∙ put_entry-other x _ store' id other)
      ])
    ]

pub mark_stopped-scheduled :
    (ids : List ℕ) (store' : ℕ → Managed) (id : ℕ)
    → (mark_stopped ids store' id).scheduled ≡ (store' id).scheduled
unfolding mark_stopped
mark_stopped-scheduled [] store' id = refl
mark_stopped-scheduled (x ∷ xs) store' id =
    mark_stopped-scheduled xs (put_entry x (record (store' x) { stop = true }) store') id
    ∙ put_entry-kept x (record (store' x) { stop = true }) store' id refl

-- A worker leaves the flag of its entry as it was, and is counted as long as it is at work.
pub advance-scheduled :
    (asked : Bool) (config : TaskConfig) (m : Managed) (p : Phase)
    → (advance asked config m p).0.scheduled ≡ m.scheduled
unfolding advance
advance-scheduled asked config m p = ground arith

pub advance-is_notifying :
    (asked : Bool) (config : TaskConfig) (m : Managed) (p : Phase)
    → is_at_work p ≡ true
    → is_notifying (advance asked config m p).1 ≡ is_notifying p
unfolding advance is_at_work
advance-is_notifying asked config m p at_work = ground arith

module _ (ws before after : List Worker) (w : Worker) (there : ws ≡ before ++ w ∷ after) where
  -- A worker that moves on, and one that ends.
  pub workers_of-moved :
      (p : Phase) (id : ℕ)
      → workers_of id (before ++ record w { phase = p } ∷ after) ≤ workers_of id ws
  workers_of-moved p id =
      let split = ap (workers_of id) there ∙ workers_of-++ id before (w ∷ after) in
      rw (workers_of-++ id before (record w { phase = p } ∷ after)) (omega arith)

  pub counted-moved :
      (p : Phase)
      → counted (before ++ record w { phase = p } ∷ after) + bit (not (is_notifying w.phase))
        ≡ counted ws + bit (not (is_notifying p))
  counted-moved p =
      let split = ap counted there ∙ counted-++ before (w ∷ after) in
      rw (counted-++ before (record w { phase = p } ∷ after)) (omega arith)

  pub workers_of-ended : (id : ℕ) → workers_of id (before ++ after) ≤ workers_of id ws
  workers_of-ended id =
      let split = ap (workers_of id) there ∙ workers_of-++ id before (w ∷ after) in
      rw (workers_of-++ id before after) (omega arith)

  pub counted-ended : counted (before ++ after) + bit (not (is_notifying w.phase)) ≡ counted ws
  counted-ended =
      let split = ap counted there ∙ counted-++ before (w ∷ after) in
      rw (counted-++ before after) (omega arith)
