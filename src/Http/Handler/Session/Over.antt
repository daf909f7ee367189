-- ===== src/Http/Handler/Session/Over.antt =====
-- What is over after a logout by HTTP.
use task_management.Base.{
  ℕ, ◌<◌, String, false, [], ◌∷◌, ◌≡◌, ◌≢◌, refl, arith, sym, ap, ◌∙◌, str_eq,
}
use task_management.Domain.Errors.{Failure, Result, ok, err}
use task_management.Domain.Text.{trim_space}
use task_management.Database.Tx.{World}
use task_management.Cache.Redis.{Redis}
use task_management.Cache.Token.{Store}
use task_management.Service.Account.{Crypto}
use task_management.Service.Auth as Service
use task_management.Service.Auth.{TokenPair}
use task_management.Service.Auth.Access.{logout-revokes}
use task_management.Http.Response.{failed, error_handler}
use task_management.Http.Response.Safe.{to_response-status}
use task_management.Http.Handler.Session.{
  AuthConfig, refreshed, logged_out, refresh, logout, clear_refresh_cookie,
}

refusal-status : (e : Failure) (n : ℕ) → n < 400 → (error_handler (failed e)).status ≢ n
unfolding error_handler
refusal-status e n small h = omega (arith, small, (to_response-status e).0, h)

module _ {S : Type 0} (redis : Redis S) (crypto : Crypto) (cfg : AuthConfig) where
  logged_out-ok :
      (r : Result (Unit {0}) × (World × Store S))
      → (logged_out redis crypto cfg r).0.reply.status ≡ 204
      → (r.0 ≡ ok tt)
        × ((logged_out redis crypto cfg r).1 ≡ r.1)
        × ((logged_out redis crypto cfg r).0.cookies ≡ clear_refresh_cookie cfg ∷ [])
  logged_out-ok (err e, w) h = absurd (refusal-status e 204 (omega arith) h)
  logged_out-ok (ok tt, w) h = (refl, refl, refl)

  refreshed-ok :
      (r : Result TokenPair × (World × Store S))
      → (refreshed redis crypto cfg r).0.reply.status ≡ 200
      → (pair : TokenPair) × (r.0 ≡ ok pair)
  refreshed-ok (err e, w) h = absurd (refusal-status e 200 (omega arith) h)
  refreshed-ok (ok pair, w) h = (pair, refl)

  -- A logout that is answered with 204 clears the cookie, and a refresh with the cookie that was sent
  -- with it, which was not blank, is no longer answered with 200.
  pub logout-refresh :
      (clock salt : ℕ) (header cookie : String) (w : World × Store S)
      → str_eq (trim_space cookie) "" ≡ false
      → (logout redis crypto cfg clock header cookie w).0.reply.status ≡ 204
      → ((logout redis crypto cfg clock header cookie w).0.cookies ≡ clear_refresh_cookie cfg ∷ [])
        × ((refresh redis crypto cfg salt cookie
              (logout redis crypto cfg clock header cookie w).1).0.reply.status
            ≢ 200)
  unfolding logout refresh
  logout-refresh clock salt header cookie w given out =
      let done = logged_out-ok (Service.logout redis crypto clock _ cookie w) out in
      (
        done.2,
        λ again.
            let (pair, accepted) =
              refreshed-ok (Service.refresh redis crypto salt cookie _) again in
            logout-revokes redis crypto clock salt _ cookie w pair given done.0
              (ap (λ v. (Service.refresh redis crypto salt cookie v).0) (sym done.1) ∙ accepted),
      )
