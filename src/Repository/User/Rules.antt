-- ===== src/Repository/User/Rules.antt =====
-- The rules of the user repository's reads.
use task_management.Base.{ℕ, String}
use task_management.Domain.Team.{User}
use task_management.Database.Tables.{Db}
use task_management.Database.Runs.{Runs, query_runs}
use task_management.Repository.User

module _ {E : Db → Type 0} {Q : User → Db → Type 0} (b : Db) where
  pub get_by_id_runs : (id : ℕ) → E b → ((u : User) → Q u b) → Runs b (User.get_by_id id) E Q
  unfolding User.get_by_id
  get_by_id_runs id fails h = query_runs b _ _ fails (λ u _. h u)

  pub get_by_email_runs :
      (email : String) → E b → ((u : User) → Q u b) → Runs b (User.get_by_email email) E Q
  unfolding User.get_by_email
  get_by_email_runs email fails h = query_runs b _ _ fails (λ u _. h u)
