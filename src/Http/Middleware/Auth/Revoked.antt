-- ===== src/Http/Middleware/Auth/Revoked.antt =====
-- Whom the authentication lets through, and who is out after a logout.
use mathlib.Core.Path.{subst}
use task_management.Base.{
  ℕ, String, Bool, true, false, Option, none, some, is_some, ◌==◌, ◌≡◌, refl, arith, sym, ◌∙◌,
  Bool-cases, inl, inr, str_eq, ◌-◌, ◌<◌, ◌+◌, List,
}
use task_management.Domain.Errors.{Result, ok, err}
use task_management.Domain.Text.{trim_space}
use task_management.Database.Tx.{World}
use task_management.Cache.Redis.{Redis}
use task_management.Cache.Token.{
  Store, access_token_key, is_access_token_blacklisted, blacklist_access_token,
}
use task_management.Cache.Token.Calls.{Call, make_all, total, LeaveBarred}
use task_management.Cache.Token.Lasting.{
  IsBarred, Untouched-IsBarred, set_access-IsBarred, delete_refresh_token-Untouched,
  make_all-IsBarred,
}
use task_management.Service.Account.{
  Claims, Crypto, Good, Good-bind, Good-on_sessions, Good-return, Good-returned,
}
use task_management.Service.Auth.{logout}
use task_management.Http.Middleware.Auth.{
  bearer_token, unless_revoked, check_claims, check_token, auth,
}

module _ {S : Type 0} (redis : Redis S) (crypto : Crypto) where
  -- The access token of these claims is revoked.
  abbrev Barred : Claims → Store S → Type 0
  Barred claims s = is_some (redis.get (access_token_key claims.jti) s.keys) ≡ true

  unless_revoked-ok :
      (u v : ℕ) (r : Result Bool × Store S)
      → (unless_revoked redis crypto u r).0 ≡ ok v
      → (r.0 ≡ ok false) × (u ≡ v)
  unless_revoked-ok u v (err e, s) h = ground arith
  unless_revoked-ok u v (ok true, s) h = ground arith
  unless_revoked-ok u v (ok false, s) h = (refl, ok_eq u v h)
    where
      ok_eq : (x y : ℕ) → ok x ≡ ok y → x ≡ y
      ok_eq x y e = cc

  not_blacklisted :
      (jti : String) (s : Store S)
      → (is_access_token_blacklisted redis jti s).0 ≡ ok false
      → is_some (redis.get (access_token_key jti) s.keys) ≡ false
  unfolding is_access_token_blacklisted
  not_blacklisted jti s h = elim (Bool-cases (s.down s.sent)) [
    | inl d ↦ ground arith
    | inr d ↦ ok_eq _ _ (rw d at h)
  ]
    where
      ok_eq : (x y : Bool) → ok x ≡ ok y → x ≡ y
      ok_eq x y e = cc

  -- Let through for the user `u`.
  abbrev pub Admitted : Option String → ℕ → Store S → Type 0
  Admitted none u s = ⊥
  Admitted (some token) u s =
      (claims : Claims) × (crypto.validate_access_token token ≡ some claims)
      × (claims.user_id ≡ u)
      × (is_some (redis.get (access_token_key claims.jti) s.keys) ≡ false)

  check_claims-ok :
      (token : String) (found : Option Claims) (u : ℕ) (s : Store S)
      → crypto.validate_access_token token ≡ found
      → (check_claims redis crypto found s).0 ≡ ok u
      → Admitted (some token) u s
  check_claims-ok token none u s e h = ground arith
  check_claims-ok token (some claims) u s e h =
      let (f, same) =
        unless_revoked-ok claims.user_id u (is_access_token_blacklisted redis claims.jti s) h in
      (claims, e, same, not_blacklisted claims.jti s f)

  check_token-ok :
      (token : Option String) (u : ℕ) (s : Store S)
      → (check_token redis crypto token s).0 ≡ ok u
      → Admitted token u s
  check_token-ok none u s h = ground arith
  check_token-ok (some token) u s h =
      check_claims-ok token (crypto.validate_access_token token) u s refl h

  -- The middleware lets a request through only when its header holds a token that is valid, for the
  -- user whom the token names, and when the session store has answered that the token is not
  -- revoked: where the store does not answer nobody is let through.
  pub auth_sound :
      (header : String) (u : ℕ) (s : Store S)
      → (auth redis crypto header s).0 ≡ ok u
      → Admitted (bearer_token header) u s
  unfolding auth
  auth_sound header u s h = check_token-ok (bearer_token header) u s h

  abbrev pub BarredAfter : ℕ → Claims → Unit {0} → World × Store S → Type 0
  BarredAfter clock claims _ w = IsBarred redis claims.jti claims.expires_at clock w.1.keys

  blacklist-Barred :
      (claims : Claims) (clock : ℕ) (s s' : Store S)
      → clock < claims.expires_at
      → blacklist_access_token redis claims.jti (claims.expires_at - clock) s ≡ (ok tt, s')
      → IsBarred redis claims.jti claims.expires_at clock s'.keys
  unfolding blacklist_access_token
  blacklist-Barred claims clock s s' live e = elim (Bool-cases (s.down s.sent)) [
    | inl d ↦ ground arith
    | inr d ↦
        let some_time : (claims.expires_at - clock == 0) ≡ false = ground (arith, live) in
        subst (λ x. IsBarred redis claims.jti claims.expires_at clock x.1.keys) e
          (rw (some_time, d)
            (set_access-IsBarred redis claims.jti claims.expires_at clock
              (claims.expires_at - clock) s.keys (omega (arith, live)) (omega (arith, live))))
  ]

  logout-Barred :
      (clock : ℕ) (access raw : String) (claims : Claims) (w : World × Store S)
      → str_eq access "" ≡ false
      → crypto.validate_access_token access ≡ some claims
      → clock < claims.expires_at
      → Good
          (λ _ w'. IsBarred redis claims.jti claims.expires_at clock w'.1.keys)
          (logout redis crypto clock access raw w)
  unfolding logout
  logout-Barred clock access raw claims w given valid live =
      Good-bind (BarredAfter clock claims) (BarredAfter clock claims) _ _ w
        (rw (given, valid)
          (Good-on_sessions _ _ w.0 w.1 λ _ s' e. blacklist-Barred claims clock w.1 s' live e))
        λ _ w1 h. elim (Bool-cases (str_eq (trim_space raw) "")) [
          | inl b ↦ rw b (Good-return _ tt w1 h)
          | inr b ↦ rw b (
              Good-on_sessions _ _ w1.0 w1.1 λ _ s' e.
                subst (λ x. IsBarred redis claims.jti claims.expires_at clock x.1.keys) e
                  (Untouched-IsBarred redis claims.jti claims.expires_at clock _ _
                    (delete_refresh_token-Untouched redis claims.jti _ w1.1) h))
        ]

  Admitted-not-Barred :
      (token : String) (claims : Claims) (u : ℕ) (s : Store S)
      → crypto.validate_access_token token ≡ some claims
      → Barred claims s
      → ¬ Admitted (some token) u s
  Admitted-not-Barred token claims u s valid barred (other, is, same, free) =
      cannot (is_some (redis.get (access_token_key other.jti) s.keys))
        (subst (λ c. Barred c s) (some_eq claims other (sym valid ∙ is)) barred) free
    where
      some_eq : (x y : Claims) → some x ≡ some y → x ≡ y
      some_eq x y e = cc

      cannot : (b : Bool) → b ≡ true → b ≡ false → ⊥
      cannot b t f = ground arith

  -- A logout at `clock` succeeds, with a valid access token. After it come any calls of the session
  -- store by whatever clients, answered or not, with time between them; of these, one that blacklists
  -- the same token does so for its remaining time at least, as a second logout does. Then until the
  -- token expires the middleware does not let it through.
  pub logout-bars :
      (clock u : ℕ) (access raw header : String) (claims : Claims) (cs : List Call)
      (w : World × Store S)
      → str_eq access "" ≡ false
      → crypto.validate_access_token access ≡ some claims
      → bearer_token header ≡ some access
      → (logout redis crypto clock access raw w).0 ≡ ok tt
      → clock + total cs < claims.expires_at
      → LeaveBarred claims.jti claims.expires_at clock cs
      → ¬ (
          (auth redis crypto header
            (make_all redis cs (logout redis crypto clock access raw w).1.1)).0
          ≡ ok u)
  logout-bars clock u access raw header claims cs w given valid holds out live leave again =
      let done : Store S = (logout redis crypto clock access raw w).1.1 in
      Admitted-not-Barred access claims u (make_all redis cs done) valid
        (make_all-IsBarred redis claims.jti claims.expires_at clock cs done live leave (
          Good-returned (BarredAfter clock claims) _ tt
            (logout-Barred clock access raw claims w given valid (omega (arith, live))) out))
        (subst (λ t. Admitted t u (make_all redis cs done)) holds
          (auth_sound header u (make_all redis cs done) again))
