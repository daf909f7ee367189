-- ===== src/Repository/Task/Listing.antt =====
-- internal/repository/task.go: filter, orderBy, List and Count. `UTC_TIMESTAMP()` is an argument, and
-- so is the server's `title LIKE pattern`, which follows the collation.
use Prim.Native.Char.{code}
use task_management.Base.{
  ℕ, String, Bool, true, false, not, Option, none, some, List, [], ◌∷◌, ◌&&◌, ◌||◌, ◌==◌, ltb,
  if◌then◌else◌, str_eq, length, take, drop, keep,
}
use task_management.Domain.Errors.{ok}
use task_management.Domain.Task.{
  Task, TaskStatus, TaskPriority, status_eq, priority_eq, is_assignee,
}
use task_management.Domain.Listing.{
  TaskListQuery, TaskCursor, Sort, Order, order_eq, sort_eq, natural,
}
use task_management.Database.Tx.{Action, query}

-- `escapeLike`: a backslash before each of the three special characters.
unfoldable pub escape_like : String → String
escape_like String.[] = String.[]
escape_like (String.◌∷◌ c s) =
    let rest = escape_like s in
    if code c == b'\\' || code c == b'%' || code c == b'_'
    then String.◌∷◌ "\\" (String.◌∷◌ c rest)
    else String.◌∷◌ c rest

-- `+` of two texts
abbrev pub joined : String → String → String
joined String.[] t = t
joined (String.◌∷◌ c s) t = String.◌∷◌ c (joined s t)

unfoldable pub search_pattern : String → String
search_pattern s = joined "%" (joined (escape_like s) "%")

abbrev pub wanted_status : Option TaskStatus → Task → Bool
wanted_status none t = true
wanted_status (some s) t = status_eq t.status s

abbrev pub wanted_assignee : ℕ → Task → Bool
wanted_assignee a t = if a == 0 then true else is_assignee t a

abbrev pub wanted_priority : Option TaskPriority → Task → Bool
wanted_priority none t = true
wanted_priority (some p) t = priority_eq t.priority p

-- due_at < UTC_TIMESTAMP(): NULL compares as unknown, which is not true.
abbrev pub due_before : ℕ → Option ℕ → Bool
due_before now none = false
due_before now (some d) = ltb d now

abbrev pub wanted_overdue : Bool → ℕ → Task → Bool
wanted_overdue false now t = true
wanted_overdue true now t =
    due_before now t.due_at
    && not (status_eq t.status TaskStatus.done || status_eq t.status TaskStatus.cancelled)

abbrev pub wanted_title : (String → String → Bool) → String → Task → Bool
wanted_title like s t = if str_eq s "" then true else like (search_pattern s) t.title

-- `filter`, the WHERE clause that List and Count share.
unfoldable pub matches : (String → String → Bool) → ℕ → TaskListQuery → Task → Bool
matches like now q t =
    t.team_id == q.team_id
    && wanted_status q.status t
    && wanted_assignee q.assignee_id t
    && wanted_priority q.priority t
    && wanted_overdue q.overdue now t
    && wanted_title like q.search t

-- ORDER BY key DIR, id DIR: does the first row come before the second?
abbrev pub in_order : Bool → ℕ → ℕ → ℕ → ℕ → Bool
in_order true k i k' i' = ltb k k' || (k == k' && ltb i i')
in_order false k i k' i' = ltb k' k || (k == k' && ltb i' i)

-- ORDER BY due_at IS NULL, due_at DIR, id DIR
abbrev pub due_in_order : Bool → Option ℕ → ℕ → Option ℕ → ℕ → Bool
due_in_order up none i none i' = in_order up 0 i 0 i'
due_in_order up none i (some d') i' = false
due_in_order up (some d) i none i' = true
due_in_order up (some d) i (some d') i' = in_order up d i d' i'

-- ENUM columns are sorted by declaration.
abbrev pub rank : TaskPriority → ℕ
rank TaskPriority.low = 1
rank TaskPriority.medium = 2
rank TaskPriority.high = 3
rank TaskPriority.urgent = 4

abbrev pub priority_in_order : Bool → Task → Task → Bool
priority_in_order true t u =
    ltb (rank t.priority) (rank u.priority)
    || (rank t.priority == rank u.priority && in_order false t.created_at t.id u.created_at u.id)
priority_in_order false t u =
    ltb (rank u.priority) (rank t.priority)
    || (rank t.priority == rank u.priority && in_order false t.created_at t.id u.created_at u.id)

-- `orderBy`: does the first row come before the second?
abbrev pub comes_first : Sort → Bool → Task → Task → Bool
comes_first Sort.unset up t u = in_order up t.created_at t.id u.created_at u.id
comes_first Sort.created_at up t u = in_order up t.created_at t.id u.created_at u.id
comes_first Sort.updated_at up t u = in_order up t.updated_at t.id u.updated_at u.id
comes_first Sort.due_at up t u = due_in_order up t.due_at t.id u.due_at u.id
comes_first Sort.priority up t u = priority_in_order up t u

unfoldable pub order_by : TaskListQuery → Task → Task → Bool
order_by q t u = comes_first q.sort (order_eq q.order Order.asc) t u

module _ (first : Task → Task → Bool) where
  abbrev pub place : Task → List Task → List Task
  place t [] = t ∷ []
  place t (u ∷ us) = let rest = place t us in if first t u then t ∷ u ∷ us else u ∷ rest

  abbrev pub sorted : List Task → List Task
  sorted [] = []
  sorted (t ∷ ts) = place t (sorted ts)

-- The keyset predicate: (col cmp ? OR (col = ? AND id cmp ?)).
unfoldable pub past_cursor : TaskCursor → Task → Bool
past_cursor c t =
    in_order (order_eq c.order Order.asc) c.time c.id
      (if sort_eq c.sort Sort.updated_at then t.updated_at else t.created_at) t.id

abbrev pub past : Option TaskCursor → Task → Bool
past none t = true
past (some c) t = past_cursor c t

abbrev pub skipped : TaskListQuery → Option TaskCursor → ℕ
skipped q none = natural q.offset
skipped q (some c) = 0

-- The rows that List reads from the table.
unfoldable pub rows :
    (String → String → Bool) → ℕ → TaskListQuery → Option TaskCursor → List Task → List Task
rows like now q after ts = take (natural q.limit) (
    drop (skipped q after)
      (sorted (order_by q) (keep (λ t. matches like now q t && past after t) ts)))

unfoldable pub list :
    (String → String → Bool) → ℕ → TaskListQuery → Option TaskCursor → Action (List Task)
list like now q after = query "taskRepo.List" λ b. ok (rows like now q after b.tasks)

unfoldable pub count : (String → String → Bool) → ℕ → TaskListQuery → Action ℕ
count like now q = query "taskRepo.Count" λ b. ok (length (keep (matches like now q) b.tasks))
