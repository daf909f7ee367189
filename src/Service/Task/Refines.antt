-- ===== src/Service/Task/Refines.antt =====
-- The methods of the task service that write refine the specification: under any outages a method
-- fails and leaves the tables as they were, or makes one step that the actor is entitled to.
use task_management.Base.{ℕ, Bool, true, false, [], ◌∷◌, ◌+◌, ◌≡◌, refl, ◌⊎◌, inl, inr, arith}
use task_management.Domain.Errors.{ok}
use task_management.Domain.Results.{gives-any}
use task_management.Domain.Task.{
  Task, TaskChanges, UpdateTaskRequest, CreateTaskRequest, HistoryAction, created, updated,
}
use task_management.Database.Tables.{Db}
use task_management.Database.Tx.{pure, ◌>>◌}
use task_management.Database.Runs.{
  Runs, returns, lift_runs, lift_gives_runs, recast_runs, chain, within_tx_runs, Anything,
}
use task_management.Repository.Team.Rules.{get_member_role_runs}
use task_management.Repository.Task.Rules.{
  get_by_id_for_update_runs, update_runs, create_runs, delete_runs, add_history_runs,
}
use task_management.Repository.Task.{push_history, update_rows}
use task_management.Service.Team.Refines.{member_role_runs, invalidate_runs}
use task_management.Service.Task.Update.{now, normalize_due_at}
use task_management.Service.Task.Diff.{diff}
use task_management.Service.Task.Spec.{TaskStep, creates, revises, deletes}
use task_management.Service.Task.Rights.{apply_update_runs, require_member_runs, may_delete_edit}
use task_management.Service.Task.{
  task_not_found, require_delete, requested_assignee, new_task, initial_changes, create_task,
  delete_task, update_task, record_history, write_changes, invalidate_changed,
}

record_history_runs :
    {E : Db → Type 0} {Q : Unit {0} → Db → Type 0} (b : Db) (t : Task) (actor : ℕ)
    (action : HistoryAction) (cs : TaskChanges)
    → E b
    → Q tt (push_history t.id actor action cs t.updated_at b)
    → Runs b (record_history t actor action cs) E Q
unfolding record_history
record_history_runs b t actor action cs fails h =
    add_history_runs b t.id actor action cs t.updated_at fails h

write_changes_runs :
    {Q : Task × Bool → Db → Type 0} (b : Db) (clock actor : ℕ) (new : Task) (cs : TaskChanges)
    → Q (new, false) b
    → Q
        (record new { updated_at = now clock; version = new.version + 1 }, true)
        (push_history new.id actor updated cs (now clock) (record b {
          tasks = update_rows (record new { updated_at = now clock }) new.version b.tasks;
        }))
    → Runs b (write_changes clock actor new cs) Anything Q
write_changes_runs b clock actor new [] same h = returns b _ same
write_changes_runs b clock actor new (c ∷ cs) same h = chain (
    update_runs b (record new { updated_at = now clock }) new.version tt
      (chain (record_history_runs _ _ actor updated (c ∷ cs) tt (returns _ _ h))))

pub invalidate_changed_runs :
    {E : Db → Type 0} {Q : Unit {0} → Db → Type 0} (b : Db) (c : Bool) (t : ℕ)
    → Q tt b
    → Runs b (invalidate_changed c t) E Q
invalidate_changed_runs b true t h = invalidate_runs b t h
invalidate_changed_runs b false t h = returns b tt h

-- Under any outages, UpdateTask fails and leaves the tables as they were, or returns and leaves them
-- as they were or makes one step of TaskStep: a change to tasks, recorded in the history, that the
-- actor's role and his part in the task entitle him to.
pub update_task-refines :
    (closing clock actor id : ℕ) (req : UpdateTaskRequest) (b : Db)
    → Runs b
        (update_task closing clock actor id req)
        (λ b'. b' ≡ b)
        (λ _ b'. (b' ≡ b) ⊎ TaskStep actor b b')
unfolding update_task diff
update_task-refines closing clock actor id req b = chain (
    lift_runs b _ refl λ _ _. chain (
      within_tx_runs b _ (
        chain (
          get_by_id_for_update_runs b id tt λ old is. chain (
            recast_runs b task_not_found _ (
              get_member_role_runs b old.team_id actor tt λ r role_is. chain (
                lift_runs b _ tt λ _ _. chain (
                  apply_update_runs b closing r actor old req tt λ new rv.
                    write_changes_runs b clock actor new (diff old new)
                      (finish (new, false) b (inl refl))
                      (finish
                        (record new { updated_at = now clock; version = new.version + 1 }, true) _
                        (inr (
                          revises old (record new { updated_at = now clock }) r is role_is
                            (record {
                              identity = rv.identity;
                              origin = rv.origin;
                              entitled = rv.entitled;
                              content = rv.content;
                              assignment = rv.assignment;
                              closing = rv.closing;
                            }))))))))))))
  where
    finish :
        (done : Task × Bool) (b' : Db)
        → (b' ≡ b) ⊎ TaskStep actor b b'
        → Runs b'
            (invalidate_changed done.1 done.0.team_id >> pure done.0)
            (λ b''. b'' ≡ b)
            (λ _ b''. (b'' ≡ b) ⊎ TaskStep actor b b'')
    finish done b' h =
        chain (invalidate_changed_runs b' done.1 done.0.team_id (returns b' done.0 h))

require_delete-ok : (c : Bool) → require_delete c ≡ ok tt → c ≡ true
require_delete-ok c h = ground arith

-- Under any outages, DeleteTask fails and leaves the tables as they were, or makes one step of TaskStep,
-- a change to tasks that the actor's role and his part in the task entitle him to.
pub delete_task-refines :
    (actor id : ℕ) (b : Db)
    → Runs b (delete_task actor id) (λ b'. b' ≡ b) (λ _ b'. TaskStep actor b b')
unfolding delete_task
delete_task-refines actor id b = chain (
    within_tx_runs b _ (
      chain (
        get_by_id_for_update_runs b id tt λ old is. chain (
          recast_runs b task_not_found _ (
            get_member_role_runs b old.team_id actor tt λ r role_is. chain (
              lift_runs b _ tt λ _ allowed. chain (
                delete_runs b old.id tt (
                  returns _ old.team_id (
                    invalidate_runs _ old.team_id (
                      deletes old r is role_is
                        (may_delete_edit r actor old (require_delete-ok _ allowed))))))))))))

-- Under any outages, CreateTask fails and leaves the tables as they were, or makes one step of TaskStep,
-- a change to tasks that the actor's role and his part in the task entitle him to.
pub create_task-refines :
    (id clock actor : ℕ) (req : CreateTaskRequest) (b : Db)
    → Runs b (create_task id clock actor req) (λ b'. b' ≡ b) (λ _ b'. TaskStep actor b b')
unfolding create_task
create_task-refines id clock actor req b = chain (
    member_role_runs b req.team_id actor refl λ r role_is. chain (
      require_member_runs b req.team_id assignee refl λ staffed. chain (
        lift_gives_runs b _ refl (
          gives-any (normalize_due_at req.due_at) λ due_at.
            let task : Task = new_task id clock actor assignee req due_at in
            chain (
              within_tx_runs b _ (
                chain (
                  create_runs b task tt λ free.
                    record_history_runs _ task actor created (initial_changes task) tt (
                      chain (
                        invalidate_runs _ task.team_id (
                          returns _ task (
                            creates task r (initial_changes task) free role_is (record {
                              creator = refl;
                              open_status = refl;
                              not_closed = refl;
                              first_version = refl;
                              staffed = staffed;
                            }))))))))))))
  where
    assignee : ℕ
    assignee = requested_assignee actor req.assignee_id
