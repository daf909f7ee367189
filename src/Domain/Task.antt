-- ===== src/Domain/Task.antt =====
-- internal/domain/task.go and nullable.go. A time is a number of nanoseconds since Go's zero time.
use task_management.Base.{
  ℕ, String, Bool, true, false, not, Option, none, some, List, ◌&&◌, ◌||◌, ltb, ◌==◌, is_some,
}

pub data TaskStatus : Type 0 where
  todo in_progress review done cancelled : TaskStatus

abbrev pub status_eq : TaskStatus → TaskStatus → Bool
status_eq todo todo = true
status_eq in_progress in_progress = true
status_eq review review = true
status_eq done done = true
status_eq cancelled cancelled = true
status_eq _ _ = false

abbrev pub is_terminal : TaskStatus → Bool
is_terminal s = status_eq s done || status_eq s cancelled

pub data TaskPriority : Type 0 where
  low medium high urgent : TaskPriority

abbrev pub priority_eq : TaskPriority → TaskPriority → Bool
priority_eq low low = true
priority_eq medium medium = true
priority_eq high high = true
priority_eq urgent urgent = true
priority_eq _ _ = false

pub record Task : Type 0 where
  pub id : ℕ
  pub team_id : ℕ
  pub title : String
  pub description : String
  pub status : TaskStatus
  pub priority : TaskPriority
  pub due_at : Option ℕ
  pub created_by : ℕ
  pub assignee_id : Option ℕ
  pub created_at : ℕ
  pub updated_at : ℕ
  pub closed_at : Option ℕ
  pub version : ℕ

abbrev pub is_overdue : Task → ℕ → Bool
is_overdue t now = elim t.due_at [ none ↦ false | some d ↦ ltb d now && not (is_terminal t.status) ]

abbrev pub is_assignee : Task → ℕ → Bool
is_assignee t user = elim t.assignee_id [ none ↦ false | some a ↦ a == user ]

-- `Nullable[T]`: Set and Valid, with the value there when Valid.
pub data Nullable (A : Type 0) : Type 0 where
  omitted : Nullable A
  null : Nullable A
  value : A → Nullable A

abbrev pub is_set : {A : Type 0} → Nullable A → Bool
is_set omitted = false
is_set null = true
is_set (value a) = true

-- `Ptr`
abbrev pub ptr : {A : Type 0} → Nullable A → Option A
ptr omitted = none
ptr null = none
ptr (value a) = some a

-- `Priority == ""` is `none`; an assignee is a pointer, which may point to the empty string, 0.
pub record CreateTaskRequest : Type 0 where
  pub team_id : ℕ
  pub title : String
  pub description : String
  pub assignee_id : Option ℕ
  pub priority : Option TaskPriority
  pub due_at : Option ℕ

pub record UpdateTaskRequest : Type 0 where
  pub title : Option String
  pub description : Option String
  pub status : Option TaskStatus
  pub assignee_id : Option ℕ
  pub priority : Option TaskPriority
  pub due_at : Nullable ℕ
  pub version : ℕ

abbrev pub is_empty : UpdateTaskRequest → Bool
is_empty r =
    not (is_some r.title)
    && not (is_some r.description)
    && not (is_some r.status)
    && not (is_some r.assignee_id)
    && not (is_some r.priority)
    && not (is_set r.due_at)

pub record TaskComment : Type 0 where
  pub id : ℕ
  pub task_id : ℕ
  pub user_id : ℕ
  pub content : String
  pub created_at : ℕ
  pub updated_at : ℕ

-- The `any` of a `FieldChange`: the types of the fields that change.
pub data FieldValue : Type 0 where
  nothing : FieldValue
  text : String → FieldValue
  status : TaskStatus → FieldValue
  priority : TaskPriority → FieldValue
  time : ℕ → FieldValue
  user : ℕ → FieldValue

-- A nil pointer in an `any` is marshalled to null.
abbrev pub time_value : Option ℕ → FieldValue
time_value none = nothing
time_value (some t) = time t

abbrev pub user_value : Option ℕ → FieldValue
user_value none = nothing
user_value (some u) = user u

-- The keys of `TaskChanges`.
pub data Field : Type 0 where
  title description status priority due_at closed_at assignee_id : Field

pub record FieldChange : Type 0 where
  pub field : Field
  pub old : FieldValue
  pub new : FieldValue

-- `map[string]FieldChange`, each key at most once, in the order of insertion.
abbrev pub TaskChanges : Type 0
TaskChanges = List FieldChange

pub data HistoryAction : Type 0 where
  created updated : HistoryAction

-- `Changes` holds the marshalled map in the source.
pub record TaskHistory : Type 0 where
  pub id : ℕ
  pub task_id : ℕ
  pub changed_by : ℕ
  pub action : HistoryAction
  pub changes : TaskChanges
  pub created_at : ℕ
