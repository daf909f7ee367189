-- ===== src/Cache/Task.antt =====
-- internal/cache/task.go. A page is of any type; what Redis holds for it is `none` where it cannot be
-- unmarshalled. A query is its team and the digest of its JSON text.
pub mod Interleave
pub mod Commands
pub mod Floors
pub mod Fresh
use task_management.Base.{ℕ, suc, String, Option, none, some, if◌then◌else◌}
use task_management.Domain.Errors.{Failure, plain, Result, ok, err}
use task_management.Cache.Token.{Store, then_do}
use task_management.Cache.Pages.{PageKey, PageServer, counted}

-- `Stamp`; the empty text is `none`.
abbrev pub Stamp : Type 0
Stamp = Option ℕ

module _ {S P : Type 0} (server : PageServer S (Option P)) where
  -- A command that fails has no effect; the failure is `fmt.Errorf`'s.
  abbrev pub send : {A : Type 0} → String → (S → A × S) → Store S → Result A × Store S
  send op f w =
      if w.down w.sent
      then (err (plain op), record w { sent = suc w.sent })
      else (ok (f w.keys).0, record w { keys = (f w.keys).1; sent = suc w.sent })

  unfoldable pub generation : ℕ → Store S → Result ℕ × Store S
  generation team w =
      send "taskCache: read generation" (λ s. (counted (server.counter team s), s)) w

  -- A missing page, or one that is not readable, is a miss in its generation.
  abbrev pub hit_or_miss : ℕ → Option (Option P) → Option P × Stamp
  hit_or_miss gen none = (none, some gen)
  hit_or_miss gen (some none) = (none, some gen)
  hit_or_miss gen (some (some p)) = (some p, some gen)

  abbrev pub look : ℕ → String → ℕ → Store S → Result (Option P × Stamp) × Store S
  look team digest gen w =
      send "taskCache: get page"
        (λ s. (
          hit_or_miss gen
              (server.get (record { team = team; generation = gen; digest = digest }) s),
          s,
        ))
        w

  unfoldable pub get : ℕ → String → Store S → Result (Option P × Stamp) × Store S
  get team digest w = then_do (generation team w) (look team digest)

  unfoldable pub set : ℕ → String → Stamp → P → Store S → Result (Unit {0}) × Store S
  set team digest none page w = (ok tt, w)
  set team digest (some gen) page w =
      send "taskCache: set page"
        (λ s. (
          tt,
          server.set (record { team = team; generation = gen; digest = digest }) (some page) s,
        ))
        w

  unfoldable pub invalidate_team : ℕ → Store S → Result (Unit {0}) × Store S
  invalidate_team team w = send "taskCache: bump generation" (λ s. (tt, server.incr team s)) w
