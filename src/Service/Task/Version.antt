-- ===== src/Service/Task/Version.antt =====
-- The optimistic lock of UpdateTask.
use task_management.Base.{ℕ, Option, none, some, ◌≡◌, refl, arith}
use task_management.Domain.Errors.{Result, ok, err}
use task_management.Domain.Task.{Task, UpdateTaskRequest}
use task_management.Database.Tables.{Db, find_task}
use task_management.Database.Tx.{World, Action}
use task_management.Database.Runs.{
  Runs, Post, Anything, returns, lift_runs, query_runs, recast_runs, chain, within_tx_runs,
}
use task_management.Repository.Team.Rules.{get_member_role_runs}
use task_management.Repository.Task
use task_management.Repository.Task.{found_task}
use task_management.Service.Task.{task_not_found, check_version, update_task}
use task_management.Service.Task.Refines.{invalidate_changed_runs}

-- The version of a task that is there.
abbrev pub IsAt : ℕ → Option Task → Type 0
IsAt v none = ⊥
IsAt v (some t) = t.version ≡ v

-- Whatever a call in a transaction does, a condition holds of it that holds of everything.
module _ {A : Type 0} (Q : A → Db → Type 0) where
  Post-always : (r : Result A × World) → ((a : A) (b : Db) → Q a b) → Post Anything Q r
  Post-always (ok a, w) h = h a w.db
  Post-always (err e, w) h = tt

  Runs-always : (b : Db) (m : Action A) → ((a : A) (b' : Db) → Q a b') → Runs b m Anything Q
  Runs-always b m h = record { at = λ w. Post-always (m (record w { db = b })) h }

found_task-ok : (o : Option Task) (t : Task) → found_task o ≡ ok t → o ≡ some t
found_task-ok none t h = ground arith
found_task-ok (some u) t h = cc

check_version-ok : (current yours : ℕ) → check_version current yours ≡ ok tt → current ≡ yours
check_version-ok current yours h = ground arith

-- UpdateTask that returns has found the task at the version that the request names; a request with
-- another version fails, and changes nothing.
pub update_task-version :
    (closing clock actor id : ℕ) (req : UpdateTaskRequest) (b : Db)
    → Runs b
        (update_task closing clock actor id req)
        (λ b'. b' ≡ b)
        (λ _ _. IsAt req.version (find_task id b.tasks))
unfolding update_task Task.get_by_id_for_update
update_task-version closing clock actor id req b = chain (
    lift_runs b _ refl λ _ _. chain (
      within_tx_runs b _ (
        chain (
          query_runs b _ _ tt λ old found. chain (
            recast_runs b task_not_found _ (
              get_member_role_runs b old.team_id actor tt λ r _. chain (
                lift_runs b _ tt λ _ same. Runs-always _ b _ λ done b'. chain (
                  invalidate_changed_runs b' done.1 done.0.team_id (
                    returns b' done.0 (
                      at_version (found_task-ok (find_task id b.tasks) old found)
                        (check_version-ok old.version req.version same)))))))))))
  where
    at_version :
        {old : Task}
        → find_task id b.tasks ≡ some old
        → old.version ≡ req.version
        → IsAt req.version (find_task id b.tasks)
    at_version is same = rw is same
