-- ===== src/Repository/Team/Stats.antt =====
-- internal/repository/team.go: the report of GetStats, one expression of its statement after the
-- other. How the collation orders two names is a parameter.
pub mod Counts
pub mod Performers
use task_management.Base.{
  ℕ, ◌+◌, ◌-◌, ◌*◌, ◌/◌, is_some, String, Bool, true, false, not, Option, none, some, List, [], ◌∷◌,
  ◌&&◌, ◌||◌, ◌==◌, ltb, leb, if◌then◌else◌, str_eq, length, take, keep,
}
use task_management.Domain.Errors.{ok}
use task_management.Domain.Time.{second}
use task_management.Domain.Team.{User}
use task_management.Domain.Task.{Task, TaskStatus, status_eq, TaskComment}
use task_management.Domain.Stats.{TopPerformer, CloseTime, TeamStats}
use task_management.Domain.Listing.{ℤ, pos, negsuc}
use task_management.Database.Tables.{Db, in_team}
use task_management.Database.Tx.{Action, query}
use task_management.Repository.Task.Listing.{wanted_overdue}

abbrev pub team_tasks : ℕ → List Task → List Task
team_tasks t ts = keep (λ x. x.team_id == t) ts

-- SUM(status = ?)
abbrev pub with_status : TaskStatus → List Task → ℕ
with_status s ts = length (keep (λ x. status_eq x.status s) ts)

abbrev pub overdue_count : ℕ → List Task → ℕ
overdue_count now ts = length (keep (wanted_overdue true now) ts)

abbrev pub is_closed : Task → Bool
is_closed x = status_eq x.status TaskStatus.done && is_some x.closed_at

abbrev pub seconds_of : Option ℕ → ℕ
seconds_of none = 0
seconds_of (some time) = time / second

abbrev pub sum_closed : List Task → ℕ
sum_closed [] = 0
sum_closed (x ∷ xs) = seconds_of x.closed_at + sum_closed xs

abbrev pub sum_created : List Task → ℕ
sum_created [] = 0
sum_created (x ∷ xs) = x.created_at / second + sum_created xs

abbrev pub difference : ℕ → ℕ → ℤ
difference m n = if leb n m then pos (m - n) else negsuc (n - m - 1)

-- AVG(CASE ... TIMESTAMPDIFF(SECOND, created_at, closed_at) END) / 3600.0: the columns hold whole
-- seconds, so that the sum of the differences is the difference of the sums.
abbrev pub close_time : List Task → CloseTime
close_time ts = record {
  seconds = difference (sum_closed (keep is_closed ts)) (sum_created (keep is_closed ts));
  tasks = length (keep is_closed ts);
}

-- COUNT of the join with the team's tasks: a comment has one task.
abbrev pub comment_count : List Task → List TaskComment → ℕ
comment_count ts cs = length (keep (λ c. is_task c.task_id ts) cs)
  where
    is_task : ℕ → List Task → Bool
    is_task id [] = false
    is_task id (x ∷ xs) = let rest = is_task id xs in x.id == id || rest

abbrev pub since : ℕ → Option ℕ → Bool
since now none = false
since now (some closed) = leb now (closed + 30 * 86400 * second)

abbrev pub assigned : ℕ → Option ℕ → Bool
assigned u none = false
assigned u (some v) = v == u

-- The tasks of a user that are done, and were closed in the last 30 days.
abbrev pub closed_count : ℕ → ℕ → List Task → ℕ
closed_count now u ts = length (
    keep
      (λ x.
        assigned u x.assignee_id && (status_eq x.status TaskStatus.done && since now x.closed_at))
      ts)

-- GROUP BY u.id, u.name: a user with no such task makes no group.
abbrev pub performers : ℕ → List Task → List User → List TopPerformer
performers now ts [] = []
performers now ts (u ∷ us) =
    let rest = performers now ts us in
    if closed_count now u.id ts == 0
    then rest
    else record { user_id = u.id; user_name = u.name; closed_tasks = closed_count now u.id ts }
      ∷ rest

module _ (name_first : String → String → Bool) where
  -- ORDER BY closed_tasks DESC, u.name, u.id
  abbrev pub performer_first : TopPerformer → TopPerformer → Bool
  performer_first p q =
      ltb q.closed_tasks p.closed_tasks
      || (p.closed_tasks == q.closed_tasks
          && (name_first p.user_name q.user_name
              || (not (name_first q.user_name p.user_name) && leb p.user_id q.user_id)))

  abbrev pub place_performer : TopPerformer → List TopPerformer → List TopPerformer
  place_performer p [] = p ∷ []
  place_performer p (q ∷ qs) =
      let rest = place_performer p qs in if performer_first p q then p ∷ q ∷ qs else q ∷ rest

  abbrev pub ranked_performers : List TopPerformer → List TopPerformer
  ranked_performers [] = []
  ranked_performers (p ∷ ps) = place_performer p (ranked_performers ps)

  unfoldable pub stats_of : ℕ → ℕ → Db → TeamStats
  stats_of now t b =
      let ts : List Task = team_tasks t b.tasks in
      record {
        tasks_by_status = λ s. with_status s ts;
        top_performers = take 3 (ranked_performers (performers now ts b.users));
        avg_close_time = close_time ts;
        total_comments = comment_count ts b.comments;
        total_tasks = length ts;
        overdue_tasks = overdue_count now ts;
      }

  unfoldable pub get_stats : ℕ → ℕ → Action TeamStats
  get_stats now t = query "teamRepo.GetStats: query" λ b. ok (stats_of now t b)
