-- ===== src/Service/Task.antt =====
-- internal/service/task.go, without the listing, and visibleTask of service.go. What `time.Now()`,
-- `uuid.NewString()` and `UTC_TIMESTAMP()` return is an argument.
pub mod Update
pub mod Diff
pub mod Spec
pub mod Edits
pub mod Rights
pub mod Refines
pub mod Remarks
pub mod Version
pub mod Listing
pub mod Paging
pub mod Pages
use task_management.Base.{
  ℕ, String, Bool, true, false, not, Option, none, some, List, [], ◌∷◌, ◌+◌, ◌==◌, ◌||◌,
  if◌then◌else◌, ltb, str_eq, is_some, length,
}
use task_management.Domain.Errors.{
  Failure, domain, sentinel, is, Result, ok, err, forbidden, not_found, invalid_input,
  version_conflict, assignee_not_in_team,
}
use task_management.Domain.Team.{Role}
use task_management.Domain.Task.{
  Task, TaskStatus, TaskPriority, CreateTaskRequest, UpdateTaskRequest, is_empty, TaskComment,
  TaskHistory, TaskChanges, Field, FieldValue, FieldChange, time_value, user_value, HistoryAction,
  created, updated,
}
use task_management.Domain.Text.{trim_space}
use task_management.Database.Tx.{World, Action, pure, lift, ◌>>=◌, ◌>>◌, recast, within_tx}
use task_management.Repository.Team
use task_management.Repository.Task
use task_management.Repository.Comment
use task_management.Repository.Comment.{CommentView}
use task_management.Service.Rbac.{
  TaskPermissions, task_permissions_for, can_edit_comment, can_delete_comment,
}
use task_management.Service.Team.{member_role, invalidate_tasks}
use Update.{now, normalize_due_at, require_member, apply_update, conflict_message}

abbrev task_not_found : Failure → Failure
task_not_found e = if is e not_found then domain not_found "task not found" else e

-- A task of a team that the caller is not in is reported as missing.
unfoldable pub visible_task : ℕ → ℕ → Action (Task × Role)
visible_task task_id user_id = do
  task ← Task.get_by_id task_id
  role ← recast task_not_found (Team.get_member_role task.team_id user_id)
  pure (task, role)

-- `recordHistory`: marshalling the changes does not fail.
unfoldable pub record_history : Task → ℕ → HistoryAction → TaskChanges → Action (Unit {0})
record_history task user_id action changes =
    Task.add_history task.id user_id action changes task.updated_at

-- An empty assignee is the caller.
abbrev requested_assignee : ℕ → Option ℕ → ℕ
requested_assignee user_id none = user_id
requested_assignee user_id (some a) = if a == 0 then user_id else a

abbrev requested_priority : Option TaskPriority → TaskPriority
requested_priority none = TaskPriority.medium
requested_priority (some p) = p

abbrev set_from_null : Field → FieldValue → FieldChange
set_from_null f v = record { field = f; old = FieldValue.nothing; new = v }

abbrev initial_changes : Task → TaskChanges
initial_changes t =
    set_from_null Field.title (FieldValue.text t.title)
    ∷ set_from_null Field.description (FieldValue.text t.description)
    ∷ set_from_null Field.status (FieldValue.status t.status)
    ∷ set_from_null Field.priority (FieldValue.priority t.priority)
    ∷ set_from_null Field.due_at (time_value t.due_at)
    ∷ set_from_null Field.assignee_id (user_value t.assignee_id)
    ∷ []

abbrev new_task : ℕ → ℕ → ℕ → ℕ → CreateTaskRequest → Option ℕ → Task
new_task id clock user_id assignee req due_at = record {
  id = id;
  team_id = req.team_id;
  title = trim_space req.title;
  description = trim_space req.description;
  status = TaskStatus.todo;
  priority = requested_priority req.priority;
  due_at = due_at;
  created_by = user_id;
  assignee_id = some assignee;
  created_at = now clock;
  updated_at = now clock;
  closed_at = none;
  version = 1;
}

unfoldable pub create_task : ℕ → ℕ → ℕ → CreateTaskRequest → Action Task
create_task id clock user_id req = do
  member_role req.team_id user_id
  let assignee = requested_assignee user_id req.assignee_id
  require_member req.team_id assignee
  due_at ← lift (normalize_due_at req.due_at)
  let task = new_task id clock user_id assignee req due_at
  within_tx false
      (λ _. Task.create task >> record_history task user_id created (initial_changes task))
  invalidate_tasks task.team_id
  pure task

unfoldable pub get_task : ℕ → ℕ → Action Task
get_task user_id task_id = do seen ← visible_task task_id user_id; pure seen.0

abbrev require_delete : Bool → Result (Unit {0})
require_delete true = ok tt
require_delete false =
    err (domain forbidden "only the task creator or a team manager can delete a task")

unfoldable pub delete_task : ℕ → ℕ → Action (Unit {0})
delete_task user_id task_id = do
  team_id ← within_tx false λ _. do
    task ← Task.get_by_id_for_update task_id
    role ← recast task_not_found (Team.get_member_role task.team_id user_id)
    lift (require_delete (task_permissions_for role user_id task).delete)
    Task.delete task.id
    pure task.team_id
  invalidate_tasks team_id

abbrev check_version : ℕ → ℕ → Result (Unit {0})
check_version current yours =
    if yours == current
    then ok tt
    else err (domain version_conflict (conflict_message current yours))

-- The write and the history entry; the flag is `changed`. No change, no write.
abbrev write_changes : ℕ → ℕ → Task → TaskChanges → Action (Task × Bool)
write_changes clock user_id task [] = pure (task, false)
write_changes clock user_id task (c ∷ cs) = do
  stored ← Task.update (record task { updated_at = now clock }) task.version
  record_history stored user_id updated (c ∷ cs)
  pure (stored, true)

abbrev invalidate_changed : Bool → ℕ → Action (Unit {0})
invalidate_changed b team_id = if b then invalidate_tasks team_id else pure tt

abbrev refuse_empty : UpdateTaskRequest → Result (Unit {0})
refuse_empty req =
    if is_empty req then err (domain invalid_input "at least one field must be provided") else ok tt

-- `closing` is the clock at the change of status, `clock` at the write.
unfoldable pub update_task : ℕ → ℕ → ℕ → ℕ → UpdateTaskRequest → Action Task
update_task closing clock user_id task_id req = do
  lift (refuse_empty req)
  done ← within_tx false λ _. do
    task ← Task.get_by_id_for_update task_id
    role ← recast task_not_found (Team.get_member_role task.team_id user_id)
    lift (check_version task.version req.version)
    edited ← apply_update closing role user_id task req
    write_changes clock user_id edited.0 edited.1
  invalidate_changed done.1 done.0.team_id
  pure done.0

unfoldable pub get_history : ℕ → ℕ → Action (List TaskHistory)
get_history user_id task_id = do visible_task task_id user_id; Task.list_history task_id

unfoldable pub add_comment : ℕ → ℕ → ℕ → ℕ → String → Action CommentView
add_comment id clock user_id task_id content = do
  visible_task task_id user_id
  Comment.add_comment (record {
    id = id;
    task_id = task_id;
    user_id = user_id;
    content = trim_space content;
    created_at = now clock;
    updated_at = now clock;
  })
  Comment.get_comment task_id id

abbrev require_author : Bool → Result (Unit {0})
require_author true = ok tt
require_author false = err (domain forbidden "you can only edit your own comments")

abbrev rewrite_comment : ℕ → ℕ → ℕ → String → CommentView → Action CommentView
rewrite_comment clock task_id comment_id content v =
    if str_eq content v.comment.content
    then pure v
    else (Comment.update_comment (record v.comment { content = content; updated_at = now clock })
        >> Comment.get_comment task_id comment_id)

unfoldable pub edit_comment : ℕ → ℕ → ℕ → ℕ → String → Action CommentView
edit_comment clock user_id task_id comment_id content = do
  visible_task task_id user_id
  v ← Comment.get_comment task_id comment_id
  lift (require_author (can_edit_comment user_id v.comment))
  rewrite_comment clock task_id comment_id (trim_space content) v

abbrev require_moderator : Bool → Result (Unit {0})
require_moderator true = ok tt
require_moderator false =
    err (domain forbidden "only the author or a team manager can delete a comment")

unfoldable pub delete_comment : ℕ → ℕ → ℕ → Action (Unit {0})
delete_comment user_id task_id comment_id = do
  seen ← visible_task task_id user_id
  v ← Comment.get_comment task_id comment_id
  lift (require_moderator (can_delete_comment seen.1 user_id v.comment))
  Comment.delete_comment comment_id

unfoldable pub list_comments : ℕ → ℕ → Action (List CommentView)
list_comments user_id task_id = do visible_task task_id user_id; Comment.list_comments task_id
