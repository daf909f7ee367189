-- ===== src/Repository/Team/Stats/Counts.antt =====
-- The counts of a report add up.
use task_management.Base.{
  ℕ, ◌+◌, ◌≤◌, String, Bool, true, not, List, [], ◌∷◌, ◌≡◌, refl, arith, ◌&&◌, ◌||◌, length, keep,
  if◌then◌else◌,
}
use task_management.Domain.Task.{Task, TaskStatus, status_eq}
use task_management.Database.Tables.{Db}
use task_management.Repository.Task.Listing.{wanted_overdue, due_before}
use task_management.Repository.Team.Stats.{team_tasks, with_status, overdue_count, stats_of}

abbrev one : Bool → ℕ
one b = if b then 1 else 0

length-keep :
    {A : Type 0} (p : A → Bool) (x : A) (xs : List A)
    → length (keep p (x ∷ xs)) ≡ one (p x) + length (keep p xs)
length-keep p x xs = ground arith

abbrev by_status : List Task → ℕ
by_status ts =
    with_status TaskStatus.todo ts
    + with_status TaskStatus.in_progress ts
    + with_status TaskStatus.review ts
    + with_status TaskStatus.done ts
    + with_status TaskStatus.cancelled ts

one_status :
    (s : TaskStatus)
    → one (status_eq s TaskStatus.todo)
        + one (status_eq s TaskStatus.in_progress)
        + one (status_eq s TaskStatus.review)
        + one (status_eq s TaskStatus.done)
        + one (status_eq s TaskStatus.cancelled)
      ≡ 1
one_status TaskStatus.todo = refl
one_status TaskStatus.in_progress = refl
one_status TaskStatus.review = refl
one_status TaskStatus.done = refl
one_status TaskStatus.cancelled = refl

by_status-length : (ts : List Task) → by_status ts ≡ length ts
by_status-length [] = refl
by_status-length (x ∷ xs) = omega (
  arith,
  one_status x.status,
  by_status-length xs,
  length-keep (λ y. status_eq y.status TaskStatus.todo) x xs,
  length-keep (λ y. status_eq y.status TaskStatus.in_progress) x xs,
  length-keep (λ y. status_eq y.status TaskStatus.review) x xs,
  length-keep (λ y. status_eq y.status TaskStatus.done) x xs,
  length-keep (λ y. status_eq y.status TaskStatus.cancelled) x xs,
)

overdue_open :
    (now : ℕ) (s : TaskStatus) (due : Bool)
    → one (due && not (status_eq s TaskStatus.done || status_eq s TaskStatus.cancelled))
      ≤ one (status_eq s TaskStatus.todo)
        + one (status_eq s TaskStatus.in_progress)
        + one (status_eq s TaskStatus.review)
overdue_open now TaskStatus.todo due = ground arith
overdue_open now TaskStatus.in_progress due = ground arith
overdue_open now TaskStatus.review due = ground arith
overdue_open now TaskStatus.done due = ground arith
overdue_open now TaskStatus.cancelled due = ground arith

overdue-open :
    (now : ℕ) (ts : List Task)
    → overdue_count now ts
      ≤ with_status TaskStatus.todo ts
        + with_status TaskStatus.in_progress ts
        + with_status TaskStatus.review ts
overdue-open now [] = omega arith
overdue-open now (x ∷ xs) = omega (
  arith,
  overdue_open now x.status (due_before now x.due_at),
  overdue-open now xs,
  length-keep (wanted_overdue true now) x xs,
  length-keep (λ y. status_eq y.status TaskStatus.todo) x xs,
  length-keep (λ y. status_eq y.status TaskStatus.in_progress) x xs,
  length-keep (λ y. status_eq y.status TaskStatus.review) x xs,
)

module _ (name_first : String → String → Bool) where
  -- The counts by status of a report add up to its total, and the overdue tasks are among those that
  -- are to do, in progress or in review.
  pub stats_of-counts :
      (now t : ℕ) (b : Db)
      → ((stats_of name_first now t b).tasks_by_status TaskStatus.todo
            + (stats_of name_first now t b).tasks_by_status TaskStatus.in_progress
            + (stats_of name_first now t b).tasks_by_status TaskStatus.review
            + (stats_of name_first now t b).tasks_by_status TaskStatus.done
            + (stats_of name_first now t b).tasks_by_status TaskStatus.cancelled
          ≡ (stats_of name_first now t b).total_tasks)
        × ((stats_of name_first now t b).overdue_tasks
            ≤ (stats_of name_first now t b).tasks_by_status TaskStatus.todo
              + (stats_of name_first now t b).tasks_by_status TaskStatus.in_progress
              + (stats_of name_first now t b).tasks_by_status TaskStatus.review)
  unfolding stats_of
  stats_of-counts now t b =
      (by_status-length (team_tasks t b.tasks), overdue-open now (team_tasks t b.tasks))
