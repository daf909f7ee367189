-- ===== src/Cache/Task/Interleave.antt =====
-- Readers and writers of a team's pages, interleaved.
use task_management.Base.{ℕ, suc, String, Option, none, some, ◌≡◌, ◌==◌, if◌then◌else◌}
use task_management.Domain.Errors.{Failure, ok, err}
use task_management.Cache.Token.{Store}
use task_management.Cache.Pages.{PageKey, PageServer}
use task_management.Cache.Task.{Stamp, generation, look, set, invalidate_team}

-- A call of ListTasks: between the two commands of `Get`, between the cache and MySQL, and between
-- MySQL and the cache. What has been asked for is a generation; beside it stands the `floor` of the
-- moment when it was read.
pub data Reader (P : Type 0) : Type 0 where
  idle : Reader P
  asked : ℕ → String → ℕ → Reader P
  missed : Stamp → String → Reader P
  holds : Stamp → String → P → Reader P

-- The server, how often the team's tasks have changed, the number of changes at the last invalidation,
-- and the calls under way.
pub record Moment (S P : Type 0) : Type 0 where
  pub store : Store S
  pub changes : ℕ
  pub floor : ℕ
  pub readers : ℕ → Reader P

module _ {P : Type 0} where
  abbrev pub assign : ℕ → Reader P → (ℕ → Reader P) → ℕ → Reader P
  assign r x f i = if i == r then x else f i

module _ {S P : Type 0} (server : PageServer S (Option P)) (team : ℕ) (made_at : P → ℕ) where
  pub data Step (m : Moment S P) : Moment S P → Type 0 where
    -- A transaction on the team's tasks commits.
    change : Step m (record m { changes = suc m.changes })
    invalidate :
        (w : Store S)
        → invalidate_team server team m.store ≡ (ok tt, w)
        → Step m (record m { store = w; floor = m.changes })
    invalidation_fails :
        (e : Failure) (w : Store S)
        → invalidate_team server team m.store ≡ (err e, w)
        → Step m (record m { store = w })
    -- The first command of `Get`, which reads the generation.
    ask :
        (r : ℕ) (digest : String) (gen : ℕ) (w : Store S)
        → generation server team m.store ≡ (ok gen, w)
        → Step m (record m { store = w; readers = assign r (asked gen digest m.floor) m.readers })
    ask_fails :
        (r : ℕ) (digest : String) (e : Failure) (w : Store S)
        → generation server team m.store ≡ (err e, w)
        → Step m (record m { store = w; readers = assign r (missed none digest) m.readers })
    -- The second, which reads the page of that generation.
    hit :
        (r : ℕ) (digest : String) (gen since : ℕ) (page : P) (stamp : Stamp) (w : Store S)
        → m.readers r ≡ asked gen digest since
        → look server team digest gen m.store ≡ (ok (some page, stamp), w)
        → Step m (record m { store = w; readers = assign r idle m.readers })
    miss :
        (r : ℕ) (digest : String) (gen since : ℕ) (stamp : Stamp) (w : Store S)
        → m.readers r ≡ asked gen digest since
        → look server team digest gen m.store ≡ (ok (none, stamp), w)
        → Step m (record m { store = w; readers = assign r (missed stamp digest) m.readers })
    look_fails :
        (r : ℕ) (digest : String) (gen since : ℕ) (e : Failure) (w : Store S)
        → m.readers r ≡ asked gen digest since
        → look server team digest gen m.store ≡ (err e, w)
        → Step m (record m { store = w; readers = assign r (missed none digest) m.readers })
    -- The page is read from MySQL.
    read :
        (r : ℕ) (digest : String) (stamp : Stamp) (page : P)
        → m.readers r ≡ missed stamp digest
        → made_at page ≡ m.changes
        → Step m (record m { readers = assign r (holds stamp digest page) m.readers })
    store_page :
        (r : ℕ) (digest : String) (stamp : Stamp) (page : P)
        → m.readers r ≡ holds stamp digest page
        → Step m (record m {
          store = (set server team digest stamp page m.store).1;
          readers = assign r idle m.readers;
        })
    lapse :
        (k : PageKey)
        → Step m (record m { store = record m.store { keys = server.drop k m.store.keys } })

  pub data Reach (m : Moment S P) : Moment S P → Type 0 where
    here : Reach m m
    next : {m' m'' : Moment S P} → Reach m m' → Step m' m'' → Reach m m''
