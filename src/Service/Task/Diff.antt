-- ===== src/Service/Task/Diff.antt =====
-- The difference of two states of a task, field by field: an account of the audit log that does
-- not follow the way an update is made.
use task_management.Base.{ℕ, String, Option, [], ◌≡◌, if◌then◌else◌, str_eq, true, arith}
use text.Mathlib.TextPositions.{eq_refl}
use task_management.Domain.Task.{
  Task, TaskStatus, status_eq, TaskPriority, priority_eq, TaskChanges, Field, FieldValue,
  time_value, user_value,
}
use task_management.Service.Task.Update.{changed, same_time, same_assignee}

abbrev pub record_title : String → String → TaskChanges → TaskChanges
record_title old new cs =
    if str_eq new old
    then cs
    else changed cs Field.title (FieldValue.text old) (FieldValue.text new)

abbrev pub record_description : String → String → TaskChanges → TaskChanges
record_description old new cs =
    if str_eq new old
    then cs
    else changed cs Field.description (FieldValue.text old) (FieldValue.text new)

abbrev pub record_priority : TaskPriority → TaskPriority → TaskChanges → TaskChanges
record_priority old new cs =
    if priority_eq new old
    then cs
    else changed cs Field.priority (FieldValue.priority old) (FieldValue.priority new)

abbrev pub record_due_at : Option ℕ → Option ℕ → TaskChanges → TaskChanges
record_due_at old new cs =
    if same_time old new then cs else changed cs Field.due_at (time_value old) (time_value new)

abbrev pub record_status : TaskStatus → TaskStatus → TaskChanges → TaskChanges
record_status old new cs =
    if status_eq new old
    then cs
    else changed cs Field.status (FieldValue.status old) (FieldValue.status new)

abbrev pub record_closed_at : Option ℕ → Option ℕ → TaskChanges → TaskChanges
record_closed_at old new cs =
    if same_time old new then cs else changed cs Field.closed_at (time_value old) (time_value new)

abbrev pub record_assignee : Option ℕ → Option ℕ → TaskChanges → TaskChanges
record_assignee old new cs =
    if same_assignee old new
    then cs
    else changed cs Field.assignee_id (user_value old) (user_value new)

-- Every field that differs, with its old and its new value, and no other.
unfoldable pub diff : Task → Task → TaskChanges
diff old new = record_assignee old.assignee_id new.assignee_id (
    record_closed_at old.closed_at new.closed_at (
      record_status old.status new.status (
        record_due_at old.due_at new.due_at (
          record_priority old.priority new.priority (
            record_description old.description new.description
              (record_title old.title new.title []))))))

pub record_title_same : (s : String) (cs : TaskChanges) → record_title s s cs ≡ cs
record_title_same s cs = rw (eq_refl s)

pub record_description_same : (s : String) (cs : TaskChanges) → record_description s s cs ≡ cs
record_description_same s cs = rw (eq_refl s)

pub record_priority_same : (p : TaskPriority) (cs : TaskChanges) → record_priority p p cs ≡ cs
record_priority_same p cs = ground arith

pub record_due_at_same : (t : Option ℕ) (cs : TaskChanges) → record_due_at t t cs ≡ cs
record_due_at_same t cs = ground arith

pub record_status_same : (s : TaskStatus) (cs : TaskChanges) → record_status s s cs ≡ cs
record_status_same s cs = ground arith

pub record_closed_at_same : (t : Option ℕ) (cs : TaskChanges) → record_closed_at t t cs ≡ cs
record_closed_at_same t cs = ground arith

pub record_assignee_same : (u : Option ℕ) (cs : TaskChanges) → record_assignee u u cs ≡ cs
record_assignee_same u cs = ground arith

pub status_eq_sound : (s t : TaskStatus) → status_eq s t ≡ true → s ≡ t
status_eq_sound s t h = ground arith

pub priority_eq_sound : (s t : TaskPriority) → priority_eq s t ≡ true → s ≡ t
priority_eq_sound s t h = ground arith

pub same_time_sound : (s t : Option ℕ) → same_time s t ≡ true → s ≡ t
same_time_sound s t h = ground arith

pub same_assignee_sound : (s t : Option ℕ) → same_assignee s t ≡ true → s ≡ t
same_assignee_sound s t h = ground arith
