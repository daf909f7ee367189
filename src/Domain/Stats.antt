-- ===== src/Domain/Stats.antt =====
-- internal/domain/team.go: the report on a team.
use task_management.Base.{ℕ, String, List}
use task_management.Domain.Listing.{ℤ}
use task_management.Domain.Task.{TaskStatus}

pub record TopPerformer : Type 0 where
  pub user_id : ℕ
  pub user_name : String
  pub closed_tasks : ℕ

-- A number of hours as seconds and the number of tasks that they are shared by: 0 hours where there
-- are no tasks. The rounding to a decimal is left out.
pub record CloseTime : Type 0 where
  pub seconds : ℤ
  pub tasks : ℕ

pub record TeamStats : Type 0 where
  pub tasks_by_status : TaskStatus → ℕ
  pub top_performers : List TopPerformer
  pub avg_close_time : CloseTime
  pub total_comments : ℕ
  pub total_tasks : ℕ
  pub overdue_tasks : ℕ
