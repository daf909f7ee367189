-- ===== src/Repository/Task.antt =====
-- internal/repository/task.go: the statements on one task, its history and its comments.
pub mod Rules
pub mod Unassign
pub mod Listing
pub mod Ordering
pub mod Search
use task_management.Base.{
  ℕ, ltb, leb, ◌||◌, Bool, true, false, Option, none, some, List, [], ◌∷◌, ◌+◌, ◌&&◌, ◌==◌,
  if◌then◌else◌, is_some, suc,
}
use task_management.Domain.Errors.{
  domain, plain, sentinel, Result, ok, err, not_found, version_conflict,
}
use task_management.Domain.Team.{User}
use task_management.Domain.Task.{
  Task, TaskHistory, TaskChanges, HistoryAction, Field, FieldValue, is_assignee,
}
use task_management.Database.Tables.{
  Db, find_user, find_team, find_task, drop_task, drop_history, drop_comments,
}
use task_management.Database.Tx.{Action, query, exec, ◌>>◌}

-- The foreign key of a nullable column
abbrev references : Option ℕ → List User → Bool
references none us = true
references (some u) us = is_some (find_user u us)

unfoldable pub create : Task → Action (Unit {0})
create t = exec "taskRepo.Create" λ b.
    if is_some (find_task t.id b.tasks)
    then err (plain "taskRepo.Create")
    else if is_some (find_team t.team_id b.teams)
        && is_some (find_user t.created_by b.users)
        && references t.assignee_id b.users
    then ok (tt, record b { tasks = t ∷ b.tasks })
    else err (domain not_found "team or assignee not found")

abbrev pub found_task : Option Task → Result Task
found_task none = err (domain not_found "task not found")
found_task (some t) = ok t

unfoldable pub get_by_id : ℕ → Action Task
get_by_id id = query "taskRepo.get" λ b. found_task (find_task id b.tasks)

unfoldable pub get_by_id_for_update : ℕ → Action Task
get_by_id_for_update id = query "taskRepo.get" λ b. found_task (find_task id b.tasks)

-- UPDATE tasks SET ..., version = version + 1 WHERE id = ? AND version = ?
abbrev pub update_row : Task → ℕ → Task → Task
update_row t expected x =
    if x.id == t.id && x.version == expected
    then record x {
      title = t.title;
      description = t.description;
      status = t.status;
      priority = t.priority;
      due_at = t.due_at;
      assignee_id = t.assignee_id;
      closed_at = t.closed_at;
      updated_at = t.updated_at;
      version = x.version + 1;
    }
    else x

abbrev pub update_rows : Task → ℕ → List Task → List Task
update_rows t expected [] = []
update_rows t expected (x ∷ xs) = update_row t expected x ∷ update_rows t expected xs

abbrev has_version : ℕ → Option Task → Bool
has_version v none = false
has_version v (some t) = t.version == v

-- `t.Version = expectedVersion + 1` is written to the caller's task, which is the result here.
unfoldable pub update : Task → ℕ → Action Task
update t expected = exec "taskRepo.Update" λ b.
    if has_version expected (find_task t.id b.tasks)
    then (if references t.assignee_id b.users
        then ok (
          record t { version = expected + 1 },
          record b { tasks = update_rows t expected b.tasks },
        )
        else err (domain not_found "assignee not found"))
    else err (sentinel version_conflict)

-- INSERT INTO task_history: the id is the counter's.
abbrev pub push_history : ℕ → ℕ → HistoryAction → TaskChanges → ℕ → Db → Db
push_history task_id changed_by action changes created_at b = record b {
  history =
      record {
        id = b.next_history;
        task_id = task_id;
        changed_by = changed_by;
        action = action;
        changes = changes;
        created_at = created_at;
      }
      ∷ b.history;
  next_history = suc b.next_history;
}

abbrev pub assigned_to : ℕ → ℕ → Task → Bool
assigned_to team u t = t.team_id == team && is_assignee t u

-- The INSERT ... SELECT of UnassignUser, one row for each task.
abbrev pub record_unassigned : List Task → ℕ → ℕ → ℕ → ℕ → Db → Db
record_unassigned [] team u by now b = b
record_unassigned (t ∷ ts) team u by now b = record_unassigned ts team u by now (
    if assigned_to team u t
    then push_history t.id by HistoryAction.updated
        (record { field = Field.assignee_id; old = FieldValue.user u; new = FieldValue.nothing }
          ∷ [])
        now b
    else b)

abbrev pub unassign_row : ℕ → ℕ → ℕ → Task → Task
unassign_row team u now t =
    if assigned_to team u t
    then record t { assignee_id = none; updated_at = now; version = t.version + 1 }
    else t

abbrev pub unassign_rows : ℕ → ℕ → ℕ → List Task → List Task
unassign_rows team u now [] = []
unassign_rows team u now (t ∷ ts) = unassign_row team u now t ∷ unassign_rows team u now ts

abbrev pub count_assigned : ℕ → ℕ → List Task → ℕ
count_assigned team u [] = 0
count_assigned team u (t ∷ ts) =
    let n = count_assigned team u ts in if assigned_to team u t then suc n else n

-- The two statements share the time of `UTC_TIMESTAMP()`, which is an argument.
unfoldable pub unassign_user : ℕ → ℕ → ℕ → ℕ → Action ℕ
unassign_user team u by now = do
  exec {A = Unit {0}} "taskRepo.UnassignUser: history"
      (λ b. ok (tt, record_unassigned b.tasks team u by now b))
  exec "taskRepo.UnassignUser: update" (λ b.
      ok (count_assigned team u b.tasks, record b { tasks = unassign_rows team u now b.tasks }))

abbrev pub without_task : ℕ → Db → Db
without_task id b = record b {
  tasks = drop_task id b.tasks;
  history = drop_history (λ x. x == id) b.history;
  comments = drop_comments (λ x. x == id) b.comments;
}

unfoldable pub delete : ℕ → Action (Unit {0})
delete id = exec "taskRepo.Delete" λ b.
    if is_some (find_task id b.tasks)
    then ok (tt, without_task id b)
    else err (domain not_found "task not found")

-- The foreign keys to the task and to the user make the driver fail.
unfoldable pub add_history : ℕ → ℕ → HistoryAction → TaskChanges → ℕ → Action (Unit {0})
add_history task_id changed_by action changes created_at = exec "taskRepo.AddHistory" λ b.
    if is_some (find_task task_id b.tasks) && is_some (find_user changed_by b.users)
    then ok (tt, push_history task_id changed_by action changes created_at b)
    else err (plain "taskRepo.AddHistory")

-- ORDER BY created_at DESC, id DESC
abbrev later : TaskHistory → TaskHistory → Bool
later h k = ltb k.created_at h.created_at || (h.created_at == k.created_at && leb k.id h.id)

abbrev place : TaskHistory → List TaskHistory → List TaskHistory
place h [] = h ∷ []
place h (k ∷ ks) = let rest = place h ks in if later h k then h ∷ k ∷ ks else k ∷ rest

abbrev history_of : ℕ → List TaskHistory → List TaskHistory
history_of task_id [] = []
history_of task_id (h ∷ hs) =
    let rest = history_of task_id hs in if h.task_id == task_id then place h rest else rest

unfoldable pub list_history : ℕ → Action (List TaskHistory)
list_history task_id = query "taskRepo.ListHistory" λ b. ok (history_of task_id b.history)
