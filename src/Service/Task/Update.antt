-- ===== src/Service/Task/Update.antt =====
-- internal/service/task.go: applyUpdate, field by field, and the helpers at the end of the file.
use task_management.Base.{
  ℕ, String, Bool, true, false, Option, none, some, [], ◌∷◌, ◌++◌, ◌==◌, ◌||◌, if◌then◌else◌, ltb,
  str_eq,
}
use Prim.Native.String.{◌++◌ as concat}
use task_management.Domain.Errors.{
  domain, sentinel, Result, ok, err, ◌>>=ᵣ◌, forbidden, invalid_input, assignee_not_in_team,
}
use task_management.Domain.Team.{Role}
use task_management.Domain.Task.{
  Task, TaskStatus, status_eq, TaskPriority, priority_eq, UpdateTaskRequest, Nullable, omitted, ptr,
  TaskChanges, Field, FieldValue, time_value, user_value,
}
use task_management.Domain.Text.{trim_space, decimal}
use task_management.Domain.Time.{second, truncate, year}
use task_management.Database.Tx.{Action, pure, lift, ◌>>=◌, ◌>>◌}
use task_management.Repository.Team
use task_management.Service.Rbac.{TaskPermissions, any, task_permissions_for}

-- `s.now()`, of the clock
abbrev pub now : ℕ → ℕ
now clock = truncate clock second

abbrev in_range : ℕ → Result (Option ℕ)
in_range u =
    if ltb (year u) 2000 || ltb 9999 (year u)
    then err (domain invalid_input "due_at must be between the years 2000 and 9999")
    else ok (some u)

unfoldable pub normalize_due_at : Option ℕ → Result (Option ℕ)
normalize_due_at none = ok none
normalize_due_at (some t) = in_range (truncate t second)

abbrev pub same_time : Option ℕ → Option ℕ → Bool
same_time none none = true
same_time (some a) (some b) = a == b
same_time _ _ = false

abbrev pub same_assignee : Option ℕ → Option ℕ → Bool
same_assignee none none = true
same_assignee (some a) (some b) = a == b
same_assignee _ _ = false

-- `fmt.Sprintf` of the message of a version conflict
unfoldable pub conflict_message : ℕ → ℕ → String
conflict_message current yours =
    concat "task was modified (current version "
      (concat (decimal current) (concat ", yours " (concat (decimal yours) "); reload and retry")))

abbrev pub member_required : Bool → Result (Unit {0})
member_required true = ok tt
member_required false = err (sentinel assignee_not_in_team)

unfoldable pub require_member : ℕ → ℕ → Action (Unit {0})
require_member team_id user_id = do
  there ← Team.is_member team_id user_id
  lift (member_required there)

-- The task as edited so far, and the changes in the order of insertion.
abbrev pub Edit : Type 0
Edit = Task × TaskChanges

abbrev pub changed : TaskChanges → Field → FieldValue → FieldValue → TaskChanges
changed cs f old new = cs ++ (record { field = f; old = old; new = new } ∷ [])

-- A field may be changed only with the permission; the text is the refusal's.
abbrev pub permitted : Bool → String → Edit → Result Edit
permitted true text e = ok e
permitted false text e = err (domain forbidden text)

unfoldable pub edit_title : TaskPermissions → Option String → Edit → Result Edit
edit_title p none e = ok e
edit_title p (some raw) (t, cs) =
    let title = trim_space raw in
    if str_eq title t.title
    then ok (t, cs)
    else permitted p.edit_content "only the task creator or a team manager can change the title" (
      record t { title = title },
      changed cs Field.title (FieldValue.text t.title) (FieldValue.text title),
    )

unfoldable pub edit_description : TaskPermissions → Option String → Edit → Result Edit
edit_description p none e = ok e
edit_description p (some raw) (t, cs) =
    let desc = trim_space raw in
    if str_eq desc t.description
    then ok (t, cs)
    else permitted p.edit_content
        "only the task creator or a team manager can change the description"
        (
          record t { description = desc },
          changed cs Field.description (FieldValue.text t.description) (FieldValue.text desc),
        )

unfoldable pub edit_priority : TaskPermissions → Option TaskPriority → Edit → Result Edit
edit_priority p none e = ok e
edit_priority p (some next) (t, cs) =
    if priority_eq next t.priority
    then ok (t, cs)
    else permitted p.edit_content "only the task creator or a team manager can change the priority"
        (
          record t { priority = next },
          changed cs Field.priority (FieldValue.priority t.priority) (FieldValue.priority next),
        )

abbrev pub move_due_at : TaskPermissions → Option ℕ → Edit → Result Edit
move_due_at p next (t, cs) =
    if same_time t.due_at next
    then ok (t, cs)
    else permitted p.edit_content "only the task creator or a team manager can change the due date"
        (
          record t { due_at = next },
          changed cs Field.due_at (time_value t.due_at) (time_value next),
        )

unfoldable pub edit_due_at : TaskPermissions → Nullable ℕ → Edit → Result Edit
edit_due_at p omitted e = ok e
edit_due_at p req e = normalize_due_at (ptr req) >>=ᵣ λ next. move_due_at p next e

-- closed_at tracks when the task reached "done"; reopening clears it.
unfoldable pub close_or_reopen : ℕ → Edit → Edit
close_or_reopen clock (t, cs) = elim t.closed_at [
  | none ↦
      if status_eq t.status TaskStatus.done
      then (
        record t { closed_at = some (now clock) },
        changed cs Field.closed_at FieldValue.nothing (FieldValue.time (now clock)),
      )
      else (t, cs)
  | some at ↦ if status_eq t.status TaskStatus.done then (t, cs) else (
    record t { closed_at = none },
    changed cs Field.closed_at (FieldValue.time at) FieldValue.nothing,
  )
]

unfoldable pub edit_status : ℕ → TaskPermissions → Option TaskStatus → Edit → Result Edit
edit_status clock p none e = ok e
edit_status clock p (some next) (t, cs) =
    if status_eq next t.status
    then ok (t, cs)
    else permitted p.change_status "you cannot change the status of this task" (
        close_or_reopen clock (
          record t { status = next },
          changed cs Field.status (FieldValue.status t.status) (FieldValue.status next),
        ))

-- The empty string, 0, unassigns.
abbrev pub next_assignee : ℕ → Option ℕ
next_assignee a = if a == 0 then none else some a

abbrev pub require_next : ℕ → Option ℕ → Action (Unit {0})
require_next team_id none = pure tt
require_next team_id (some u) = require_member team_id u

abbrev pub may_reassign : Bool → Result (Unit {0})
may_reassign true = ok tt
may_reassign false =
    err (domain forbidden "assignees can change the status but cannot reassign the task")

abbrev pub reassign : Bool → Option ℕ → Edit → Action Edit
reassign allowed next (t, cs) = do
  lift (may_reassign allowed)
  require_next t.team_id next
  pure (
    record t { assignee_id = next },
    changed cs Field.assignee_id (user_value t.assignee_id) (user_value next),
  )

unfoldable pub edit_assignee : TaskPermissions → Option ℕ → Edit → Action Edit
edit_assignee p none e = pure e
edit_assignee p (some a) e =
    if same_assignee e.0.assignee_id (next_assignee a)
    then pure e
    else reassign p.reassign (next_assignee a) e

-- The fields that need no table, in the source's order.
unfoldable pub edit_fields : ℕ → TaskPermissions → UpdateTaskRequest → Edit → Result Edit
edit_fields clock p req e = edit_title p req.title e >>=ᵣ λ e1.
    edit_description p req.description e1 >>=ᵣ λ e2. edit_priority p req.priority e2 >>=ᵣ λ e3.
    edit_due_at p req.due_at e3 >>=ᵣ λ e4. edit_status clock p req.status e4

abbrev pub require_any : TaskPermissions → Result (Unit {0})
require_any p =
    if any p
    then ok tt
    else err (domain forbidden "you can only edit tasks you created or are assigned to")

unfoldable pub apply_update : ℕ → Role → ℕ → Task → UpdateTaskRequest → Action Edit
apply_update clock role user_id task req = do
  let p = task_permissions_for role user_id task
  lift (require_any p)
  e ← lift (edit_fields clock p req (task, []))
  edit_assignee p req.assignee_id e
