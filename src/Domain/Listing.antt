-- ===== src/Domain/Listing.antt =====
-- internal/domain/task.go and cursor.go: the query of GET /tasks, its page, and the cursor. Base64 and
-- JSON stand behind a `Codec`.
use task_management.Base.{
  ℕ, String, Bool, true, false, Option, none, some, List, ◌≡◌, ◌==◌, ◌<◌, ◌*◌, ◌||◌, not,
  if◌then◌else◌, str_eq,
}
use task_management.Domain.Errors.{domain, Result, ok, err, invalid_input}
use task_management.Domain.Time.{second}
use task_management.Domain.Task.{Task, TaskStatus, TaskPriority}

-- Go's int: `pos n` is n, and `negsuc n` is -1 - n.
pub data ℤ : Type 0 where
  pos negsuc : ℕ → ℤ

-- A negative number is read as 0.
abbrev pub natural : ℤ → ℕ
natural (pos n) = n
natural (negsuc n) = 0

-- The values that the `validate` tag of `Sort` lets through; the empty text is `unset`.
pub data Sort : Type 0 where
  unset created_at updated_at due_at priority : Sort

abbrev pub sort_eq : Sort → Sort → Bool
sort_eq unset unset = true
sort_eq created_at created_at = true
sort_eq updated_at updated_at = true
sort_eq due_at due_at = true
sort_eq priority priority = true
sort_eq _ _ = false

pub data Order : Type 0 where
  unset asc desc : Order

abbrev pub order_eq : Order → Order → Bool
order_eq unset unset = true
order_eq asc asc = true
order_eq desc desc = true
order_eq _ _ = false

-- An empty filter is `none`, and 0 for the assignee.
pub record TaskListQuery : Type 0 where
  pub team_id : ℕ
  pub status : Option TaskStatus
  pub assignee_id : ℕ
  pub priority : Option TaskPriority
  pub overdue : Bool
  pub search : String
  pub sort : Sort
  pub order : Order
  pub limit : ℤ
  pub offset : ℤ
  pub cursor : String

pub record TaskListResponse : Type 0 where
  pub tasks : List Task
  pub total : ℕ
  pub limit : ℕ
  pub offset : ℕ
  pub has_more : Bool
  pub next_cursor : String

pub record TaskCursor : Type 0 where
  pub sort : Sort
  pub order : Order
  pub time : ℕ
  pub id : ℕ

abbrev pub supports_cursor : Sort → Bool
supports_cursor s = sort_eq s Sort.unset || sort_eq s Sort.created_at || sort_eq s Sort.updated_at

abbrev pub sort_or_default : Sort → Sort
sort_or_default s = if sort_eq s Sort.unset then Sort.created_at else s

abbrev pub order_or_default : Order → Order
order_or_default o = if order_eq o Order.unset then Order.desc else o

unfoldable pub cursor_after : Task → Sort → Order → TaskCursor
cursor_after t sort order = record {
  sort = sort_or_default sort;
  order = order_or_default order;
  time = if sort_eq (sort_or_default sort) Sort.updated_at then t.updated_at else t.created_at;
  id = t.id;
}

-- The start of the year 10000, which JSON cannot write.
abbrev pub end_of_time : ℕ
end_of_time = 315_537_897_600 * second

-- What is relied on of JSON and URL-safe base64: what is encoded is decoded, and is not empty.
pub record Codec : Type 0 where
  pub encode : TaskCursor → String
  pub decode : String → Option TaskCursor
  pub decode-encode : (c : TaskCursor) → c.time < end_of_time → decode (encode c) ≡ some c
  pub encode_not_empty : (c : TaskCursor) → str_eq (encode c) "" ≡ false

-- The checks on what was decoded. An id of 0 is empty, and a time of 0 is zero.
abbrev pub check_cursor : Sort → Order → Option TaskCursor → Result TaskCursor
check_cursor sort order none = err (domain invalid_input "cursor is invalid or expired")
check_cursor sort order (some c) =
    if c.id == 0 || c.time == 0
    then err (domain invalid_input "cursor is invalid or expired")
    else if not (sort_eq c.sort (sort_or_default sort))
        || not (order_eq c.order (order_or_default order))
    then err (domain invalid_input "cursor was issued for a different sort order")
    else ok c

unfoldable pub decode_task_cursor : Codec → String → Sort → Order → Result TaskCursor
decode_task_cursor codec s sort order = check_cursor sort order (codec.decode s)
