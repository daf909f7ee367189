-- ===== src/Database/Tx.antt =====
-- Statements and transactions (pkg/database/tx.go). A service method is an action on a world: the
-- committed or pending tables, the teams whose cached pages it has asked to invalidate, and a
-- schedule of outages, by which any statement may fail as a lost connection does.
use task_management.Base.{ℕ, String, Bool, true, false, List, suc, if◌then◌else◌}
use task_management.Domain.Errors.{Failure, plain, Result, ok, err}
use task_management.Database.Tables.{Db}

pub record World : Type 0 where
  pub db : Db
  -- the calls of `InvalidateTeam`, the latest first
  pub invalidated : List ℕ
  -- does the n-th request to the server fail?
  pub down : ℕ → Bool
  pub requests : ℕ

abbrev pub Action : Type 0 → Type 0
Action A = World → Result A × World

unfoldable pub lift : {A : Type 0} → Result A → Action A
lift r w = (r, w)

abbrev pub pure : {A : Type 0} → A → Action A
pure a = lift (ok a)

abbrev pub proceed : {A B : Type 0} → Result A → (A → Action B) → Action B
proceed (ok a) f w = f a w
proceed (err e) f w = (err e, w)

infixl 5 ◌>>=◌ ◌>>◌
unfoldable pub ◌>>=◌ : {A B : Type 0} → Action A → (A → Action B) → Action B
◌>>=◌ m f w = let (r, w') = m w in proceed r f w'

abbrev pub ◌>>◌ : {A B : Type 0} → Action A → Action B → Action B
m >> k = m >>= λ _. k

-- `if errors.Is(err, ...) { return other }`
abbrev pub recast_result : {A : Type 0} → (Failure → Failure) → Result A → Result A
recast_result f (ok a) = ok a
recast_result f (err e) = err (f e)

unfoldable pub recast : {A : Type 0} → (Failure → Failure) → Action A → Action A
recast f m w = let (r, w') = m w in (recast_result f r, w')

abbrev pub count_request : World → World
count_request w = record w { requests = suc w.requests }

abbrev pub settle : {A : Type 0} → World → Result (A × Db) → Result A × World
settle w (ok (a, b)) = (ok a, record w { db = b })
settle w (err e) = (err e, w)

-- `ExecContext`: a statement fails and changes nothing, or gives a value and the new tables. The
-- text is the prefix of the wrapped driver error.
unfoldable pub exec : {A : Type 0} → String → (Db → Result (A × Db)) → Action A
exec prefix f w =
    if w.down w.requests
    then (err (plain prefix), count_request w)
    else settle (count_request w) (f w.db)

-- `GetContext`, `SelectContext`
unfoldable pub query : {A : Type 0} → String → (Db → Result A) → Action A
query prefix f w =
    if w.down w.requests then (err (plain prefix), count_request w) else (f w.db, count_request w)

-- Rollback restores the tables; what was asked of the cache is not taken back.
abbrev pub rolled_back : Db → World → World
rolled_back b w = record w { db = b }

abbrev pub commit : {A : Type 0} → Db → A → Action A
commit before a w =
    if w.down w.requests
    then (err (plain "commit tx"), rolled_back before (count_request w))
    else (ok a, count_request w)

-- The end of `WithinTx`: commit on success, roll back on an error.
abbrev pub finish : {A : Type 0} → Db → Result A → World → Result A × World
finish before (ok a) w = commit before a w
finish before (err e) w = (err e, rolled_back before w)

-- `WithinTx`: the first argument says whether the context carries a transaction already, and `fn`
-- is told whether its own context does.
unfoldable pub within_tx : {A : Type 0} → Bool → (Bool → Action A) → Action A
within_tx true fn w = fn true w
within_tx false fn w =
    if w.down w.requests
    then (err (plain "begin tx"), count_request w)
    else (let (r, w') = fn true (count_request w) in finish w.db r w')
