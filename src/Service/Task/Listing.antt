-- ===== src/Service/Task/Listing.antt =====
-- internal/service/task.go: ListTasks and normalizePage. What the page cache answers is an argument:
-- `none` is a miss or a failure. Storing the page is followed in Cache/Task.
use task_management.Base.{
  ℕ, suc, String, Bool, not, Option, none, some, List, [], ◌∷◌, ◌&&◌, ltb, if◌then◌else◌, str_eq,
  length, take, ◌==◌, keep,
}
use task_management.Domain.Errors.{domain, Result, ok, err, invalid_input}
use task_management.Domain.Task.{Task}
use task_management.Domain.Listing.{
  ℤ, pos, negsuc, natural, TaskListQuery, TaskListResponse, TaskCursor, Codec, supports_cursor,
  cursor_after, decode_task_cursor,
}
use task_management.Database.Tx.{Action, pure, lift, ◌>>=◌, ◌>>◌}
use task_management.Repository.Task.Listing as Rows
use task_management.Service.Team.{member_role}

abbrev pub default_page_size : ℕ
default_page_size = 20

abbrev pub max_page_size : ℕ
max_page_size = 100

abbrev pub at_most_max : ℕ → ℕ
at_most_max n = if ltb max_page_size n then max_page_size else n

abbrev pub normal_limit : ℤ → ℤ
normal_limit (negsuc n) = pos default_page_size
normal_limit (pos n) = if n == 0 then pos default_page_size else pos (at_most_max n)

abbrev pub normal_offset : ℤ → ℤ
normal_offset (negsuc n) = pos 0
normal_offset (pos n) = pos n

unfoldable pub normalize_page : TaskListQuery → TaskListQuery
normalize_page q = record q { limit = normal_limit q.limit; offset = normal_offset q.offset }

-- One row more than the page, which tells whether there is another page.
abbrev pub fetching : TaskListQuery → TaskListQuery
fetching q = record q { limit = pos (suc (natural q.limit)) }

abbrev pub cursor_of : Codec → TaskListQuery → Option Task → String
cursor_of codec q none = ""
cursor_of codec q (some t) = codec.encode (cursor_after t q.sort q.order)

abbrev pub last : List Task → Option Task
last [] = none
last (t ∷ []) = some t
last (t ∷ u ∷ us) = last (u ∷ us)

-- The page, from the rows that were fetched and the total.
unfoldable pub respond : Codec → TaskListQuery → List Task → ℕ → TaskListResponse
respond codec q fetched total =
    let more : Bool = ltb (natural q.limit) (length fetched) in
    let tasks : List Task = if more then take (natural q.limit) fetched else fetched in
    record {
      tasks = tasks;
      total = total;
      limit = natural q.limit;
      offset = natural q.offset;
      has_more = more;
      next_cursor = if more && supports_cursor q.sort then cursor_of codec q (last tasks) else "";
    }

abbrev pub some_cursor : Result TaskCursor → Result (Option TaskCursor)
some_cursor (ok c) = ok (some c)
some_cursor (err e) = err e

unfoldable pub read_cursor : Codec → TaskListQuery → Result (Option TaskCursor)
read_cursor codec q =
    if str_eq q.cursor ""
    then ok none
    else if not (supports_cursor q.sort)
    then err
        (domain invalid_input "cursor pagination supports sort=created_at or sort=updated_at only")
    else some_cursor (decode_task_cursor codec q.cursor q.sort q.order)

module _ (codec : Codec) (like : String → String → Bool) (now : ℕ) where
  abbrev pub read_page : TaskListQuery → Option TaskCursor → Action TaskListResponse
  read_page q after = do
    tasks ← Rows.list like now (fetching q) after
    total ← Rows.count like now q
    pure (respond codec q tasks total)

  abbrev pub use_cached :
      Option TaskListResponse → Action TaskListResponse → Action TaskListResponse
  use_cached none fresh = fresh
  use_cached (some page) fresh = pure page

  unfoldable pub list_tasks : Option TaskListResponse → ℕ → TaskListQuery → Action TaskListResponse
  list_tasks cached user_id given = do
    member_role given.team_id user_id
    let q = normalize_page given
    after ← lift (read_cursor codec q)
    use_cached cached (read_page q after)

  -- The page that a call reads from the rows.
  unfoldable pub page : TaskListQuery → Option TaskCursor → List Task → TaskListResponse
  page q after ts =
      respond codec q (Rows.rows like now (fetching q) after ts)
        (length (keep (Rows.matches like now q) ts))
