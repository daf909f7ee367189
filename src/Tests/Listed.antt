-- ===== src/Tests/Listed.antt =====
-- The theorems on lists, cursors and the page cache at concrete inputs.
use Prim.Native.Char.{Char, code}
use task_management.Repository.Task.Ordering.{HasKeys}
use task_management.Repository.Task.Listing.{matches, order_by}
use task_management.Service.Task.Listing.{read_cursor}
use task_management.Service.Task.Paging.{IsDated}
use task_management.Cache.Token.{Store}
use task_management.Cache.Task.{look, generation}
use task_management.Cache.Pages.{PageKey}
use task_management.Cache.Pages.Keys.{same_key}
use task_management.Base.{
  false, [], ◌∷◌, ◌+◌, ◌⊎◌, All, ◌==◌, ℕ, String, Bool, true, none, some, ◌≡◌, refl, arith, ◌≤◌,
  length, is_some,
}
use task_management.Domain.Errors.{ok}
use task_management.Domain.Task.{Task, TaskStatus}
use task_management.Domain.Team.{Role}
use task_management.Database.Tables.{Db}
use task_management.Repository.Team.Stats.{stats_of, closed_count, team_tasks}
use task_management.Repository.Team.Stats.Counts.{stats_of-counts}
use task_management.Repository.Team.Stats.Performers.{Listed, Descending, Full, stats_of-performers}
use task_management.Service.Team.{get_stats}
use task_management.Service.Team.Spec.{Manages}
use task_management.Service.Team.Report.{get_stats-Manages}
use task_management.Domain.Listing.{pos, Sort, Order, cursor_after, decode_task_cursor}
use task_management.Database.Tables.{role_of}
use task_management.Database.Runs.{Runs}
use task_management.Repository.Task.Listing.{search_pattern}
use task_management.Repository.Task.Search.{like, contains, like-search_pattern}
use task_management.Service.Task.Listing.{normalize_page, page, list_tasks}
use task_management.Service.Task.Paging.{
  follow, listing, with_cursor, follow-listing, decode_task_cursor-encode,
}
use task_management.Service.Task.Pages.{page-bounds, list_tasks-Answer, Answer}
use task_management.Cache.Token.{Store}
use task_management.Cache.Task.{look, set}
use task_management.Cache.Task.Interleave.{Moment, Reader, Step, Reach, assign}
use task_management.Cache.Task.Fresh.{get-not_stale}
use task_management.Tests.Sample.{tables, ticket}
use task_management.Tests.Cursors.{strokes_codec, dated, rows, by_two}
use task_management.Tests.Pages.{
  PageStore, page_server, bare, invalidated, looked_up, counted_once, invalidates, asks, misses,
  pick-same,
}

abbrev any_title : String → String → Bool
any_title p t = true

same_char : Char → Char → Bool
same_char c d = code c == code d

rows-HasKeys : HasKeys rows
rows-HasKeys = ground arith

rows-All : All IsDated rows
rows-All = ground arith

dated-IsDated : IsDated (dated 4 30)
dated-IsDated = ground arith

follow-listing_example :
    follow strokes_codec any_title 0 6 (with_cursor strokes_codec any_title 0 "" by_two) rows
    ≡ listing strokes_codec any_title 0 by_two rows
unfolding read_cursor matches page order_by
follow-listing_example =
    follow-listing strokes_codec any_title 0 by_two 1 rows rows-HasKeys rows-All refl refl refl

decode_task_cursor-encode_example :
    decode_task_cursor strokes_codec
      (strokes_codec.encode (cursor_after (dated 4 30) Sort.updated_at Order.asc))
      Sort.updated_at
      Order.asc
    ≡ ok (cursor_after (dated 4 30) Sort.updated_at Order.asc)
decode_task_cursor-encode_example =
    decode_task_cursor-encode strokes_codec (dated 4 30) Sort.updated_at Order.asc dated-IsDated

like-search_pattern_example :
    like same_char (search_pattern "50%") "at 50% now" ≡ contains same_char "50%" "at 50% now"
like-search_pattern_example = like-search_pattern same_char "50%" "at 50% now"

page-bounds_example :
    (length
        (page strokes_codec any_title 0
          (normalize_page (record by_two { limit = pos 500 }))
          none
          rows).tasks
      ≤ (page strokes_codec any_title 0
          (normalize_page (record by_two { limit = pos 500 }))
          none
          rows).limit)
    × ((page strokes_codec any_title 0
          (normalize_page (record by_two { limit = pos 500 }))
          none
          rows).limit
        ≤ 100)
page-bounds_example =
    page-bounds strokes_codec any_title 0 (record by_two { limit = pos 500 }) none rows

list_tasks-Answer_example :
    Runs tables
      (list_tasks strokes_codec any_title 0 none 3 by_two)
      (λ b'. b' ≡ tables)
      (λ p b'.
        (is_some (role_of 7 3 tables.members) ≡ true)
        × Answer strokes_codec any_title 0 none (normalize_page by_two) tables p
        × (b' ≡ tables))
list_tasks-Answer_example = list_tasks-Answer strokes_codec any_title 0 none 3 by_two tables

-- A change is committed and the team invalidated; then a call asks for the generation, misses, reads
-- the rows, and stores its page. A second call asks, and another change is committed before it looks.
abbrev changed : Moment PageStore ℕ
changed = record { store = bare; changes = 1; floor = 0; readers = λ r. Reader.idle }

abbrev cleared : Moment PageStore ℕ
cleared = record changed { store = invalidated; floor = 1 }

abbrev asking : Moment PageStore ℕ
asking = record cleared {
  store = counted_once;
  readers = assign 0 (Reader.asked 1 "all" 1) cleared.readers;
}

abbrev missing : Moment PageStore ℕ
missing = record asking {
  store = looked_up;
  readers = assign 0 (Reader.missed (some 1) "all") asking.readers;
}

abbrev reading : Moment PageStore ℕ
reading = record missing { readers = assign 0 (Reader.holds (some 1) "all" 1) missing.readers }

abbrev stored : Moment PageStore ℕ
stored = record reading {
  store = (set page_server 7 "all" (some 1) 1 looked_up).1;
  readers = assign 0 Reader.idle reading.readers;
}

abbrev shown : ℕ → ℕ
shown n = n

stored_reached : Reach page_server 7 shown cleared stored
stored_reached =
    Reach.next
      (Reach.next
        (Reach.next (Reach.next Reach.here (Step.ask 0 "all" 1 counted_once asks))
          (Step.miss 0 "all" 1 1 (some 1) looked_up refl misses))
        (Step.read 0 "all" (some 1) 1 refl refl))
      (Step.store_page 0 "all" (some 1) 1 refl)

abbrev counted_twice : Store PageStore
counted_twice = record stored.store { sent = 5 }

asks_again : generation page_server 7 stored.store ≡ (ok 1, counted_twice)
unfolding generation set
asks_again = refl

abbrev waiting : Moment PageStore ℕ
waiting = record stored {
  store = counted_twice;
  readers = assign 2 (Reader.asked 1 "all" 1) stored.readers;
}

abbrev page_key : PageKey
page_key = record { team = 7; generation = 1; digest = "all" }

served :
    look page_server 7 "all" 1 counted_twice
    ≡ (ok (some 1, some 1), record stored.store { sent = 6 })
unfolding set
served = rw (pick-same page_key (same_key page_key page_key) (some (some 1)) none) refl

get-not_stale_example : 1 ≤ shown 1
get-not_stale_example =
    get-not_stale page_server 7 shown bare changed stored (record waiting { changes = 2 })
      invalidated counted_twice (record stored.store { sent = 6 }) 2 1 "all" 1 (some 1)
      (λ g d. refl) (Reach.next Reach.here Step.change) invalidates stored_reached asks_again
      (Reach.next Reach.here Step.change) refl served

abbrev by_name : String → String → Bool
by_name n m = false

stats_of-counts_example :
    ((stats_of by_name 9 7 tables).tasks_by_status TaskStatus.todo
        + (stats_of by_name 9 7 tables).tasks_by_status TaskStatus.in_progress
        + (stats_of by_name 9 7 tables).tasks_by_status TaskStatus.review
        + (stats_of by_name 9 7 tables).tasks_by_status TaskStatus.done
        + (stats_of by_name 9 7 tables).tasks_by_status TaskStatus.cancelled
      ≡ (stats_of by_name 9 7 tables).total_tasks)
    × ((stats_of by_name 9 7 tables).overdue_tasks
        ≤ (stats_of by_name 9 7 tables).tasks_by_status TaskStatus.todo
          + (stats_of by_name 9 7 tables).tasks_by_status TaskStatus.in_progress
          + (stats_of by_name 9 7 tables).tasks_by_status TaskStatus.review)
stats_of-counts_example = stats_of-counts by_name 9 7 tables

-- Four users have closed a task each.
abbrev closed_by : ℕ → Task
closed_by u = record ticket {
  id = 10 + u;
  status = TaskStatus.done;
  closed_at = some 5;
  assignee_id = some u;
}

abbrev busy : Db
busy = record tables { tasks = closed_by 1 ∷ closed_by 2 ∷ closed_by 3 ∷ closed_by 4 ∷ [] }

stats_of-performers_example :
    (length (stats_of by_name 9 7 busy).top_performers ≤ 3)
    × Descending (stats_of by_name 9 7 busy).top_performers
    × All
        (λ u.
          (closed_count 9 u.id (team_tasks 7 busy.tasks) ≡ 0)
          ⊎ Listed u.id
              (closed_count 9 u.id (team_tasks 7 busy.tasks))
              (stats_of by_name 9 7 busy).top_performers
          ⊎ Full 3
              (closed_count 9 u.id (team_tasks 7 busy.tasks))
              (stats_of by_name 9 7 busy).top_performers)
        busy.users
stats_of-performers_example = stats_of-performers by_name 9 7 busy

get_stats-Manages_example :
    Runs tables
      (get_stats by_name 9 2 7)
      (λ b'. b' ≡ tables)
      (λ s b'.
        ((r : Role) × (role_of 7 2 tables.members ≡ some r) × Manages r)
        × (s ≡ stats_of by_name 9 7 tables)
        × (b' ≡ tables))
get_stats-Manages_example = get_stats-Manages by_name 9 2 7 tables
