-- ===== src/Http/Protected.antt =====
-- The protected routes of internal/server/http/server.go: the authentication, and behind it the
-- handlers of teams and tasks.
use mathlib.Core.Path.{subst, sym}
use task_management.Base.{ℕ, String, some, ◌≡◌, refl, ◌⊎◌, inl, inr}
use task_management.Domain.Errors.{Result, ok, err}
use task_management.Database.Tables.{Db}
use task_management.Database.Tx.{World}
use task_management.Cache.Redis.{Redis}
use task_management.Cache.Token.{Store}
use task_management.Service.Account.{Crypto}
use task_management.Service.Invariant.Steps.{Step}
use task_management.Http.Response.{failed, to_response}
use task_management.Http.Handler.Calls.{Call, handle}
use task_management.Http.Handler.Passing.{ByCaller}
use task_management.Http.Handler.Sound.{handle-ByCaller}
use task_management.Http.Middleware.Auth.{auth, bearer_token}
use task_management.Http.Middleware.Auth.Revoked.{Admitted, auth_sound}

module _ {S : Type 0} (redis : Redis S) (crypto : Crypto) where
  abbrev pub next : Result ℕ × Store S → Call → World → ℕ × (World × Store S)
  next (err e, s) call w = ((to_response (failed e)).0, (w, s))
  next (ok user, s) call w = let (status, w') = handle (some user) call w in (status, (w', s))

  -- The status of the reply, and what is left.
  unfoldable pub protected : String → Call → World × Store S → ℕ × (World × Store S)
  protected header call (w, s) = next (auth redis crypto header s) call w

  -- The tables are as they were, or have made a step of a user's who was let through.
  abbrev pub ByToken : String → Store S → Db → Db → Type 0
  ByToken header s b b' =
      (b' ≡ b) ⊎ (u : ℕ) × Admitted redis crypto (bearer_token header) u s × Step u b b'

  by_user :
      (header : String) (user : ℕ) (s : Store S) (b b' : Db)
      → Admitted redis crypto (bearer_token header) user s
      → ByCaller (some user) b b'
      → ByToken header s b b'
  by_user header user s b b' let_in (inl h) = inl h
  by_user header user s b b' let_in (inr (u, is, h)) =
      inr (user, let_in, subst (λ v. Step v b b') (sym (some_eq user u is)) h)
    where
      some_eq : (x y : ℕ) → some x ≡ some y → x ≡ y
      some_eq x y e = cc

  next-ByToken :
      (header : String) (call : Call) (w : World) (s : Store S) (r : Result ℕ × Store S)
      → ((u : ℕ) → r.0 ≡ ok u → Admitted redis crypto (bearer_token header) u s)
      → ByToken header s w.db (next r call w).1.0.db
  next-ByToken header call w s (err e, s') h = inl refl
  next-ByToken header call w s (ok user, s') h =
      by_user header user s w.db _ (h user refl) (handle-ByCaller (some user) call w)

  -- A request to a protected route of teams or tasks changes nothing in the tables unless its header
  -- holds a valid access token that is not revoked; then it makes at most one step, which the user
  -- whom the token names is entitled to.
  pub protected-ByToken :
      (header : String) (call : Call) (w : World) (s : Store S)
      → ByToken header s w.db (protected header call (w, s)).1.0.db
  unfolding protected
  protected-ByToken header call w s =
      next-ByToken header call w s (auth redis crypto header s)
        (λ u h. auth_sound redis crypto header u s h)
