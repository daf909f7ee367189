-- ===== src/Cache/Token/Once.antt =====
-- Of all the calls that rotate one refresh token, one succeeds.
use mathlib.Core.Path.{subst}
use task_management.Base.{
  ℕ, String, Bool, true, false, Option, none, some, List, [], ◌∷◌, ◌+◌, ◌≤◌, ◌≡◌, ◌≢◌, refl, sym,
  ◌∙◌, arith, ◌&&◌, ◌==◌, str_eq, eq_iff, if◌then◌else◌, All, Bool-cases, inl, inr,
}
use task_management.Domain.Errors.{Result, ok, err}
use task_management.Cache.Redis.{Redis}
use task_management.Cache.Token.{
  Store, access_token_key, refresh_token_key, replace, set_refresh_token, get_refresh_token,
  rotate_refresh_token, delete_refresh_token, blacklist_access_token, is_access_token_blacklisted,
  found_user_id,
}
use task_management.Cache.Token.Prefixes.{access_token_key-ne}
use task_management.Cache.Token.Single.{key-ne, rotate_refresh_token-consumes}
use task_management.Cache.Token.Calls.{
  Call, saves, looks, rotates, deletes, blacklists, checks, waits, make,
}

abbrev pub succeeded : Result (Unit {0}) → Bool
succeeded (ok tt) = true
succeeded (err e) = false

-- The call does not store the hash.
abbrev pub LeavesUnset : String → Call → Type 0
LeavesUnset hash (saves h user) = hash ≢ h
LeavesUnset hash (rotates old new user) = hash ≢ new
LeavesUnset hash _ = Unit

module _ {S : Type 0} (redis : Redis S) (hash : String) where
  -- Does the call rotate this hash, and succeed?
  abbrev pub redeems : Call → Store S → Bool
  redeems (rotates old new user) w =
      str_eq old hash && succeeded (rotate_refresh_token redis old new user w).0
  redeems _ w = false

  abbrev pub redeemed : List Call → Store S → ℕ
  redeemed [] w = 0
  redeemed (c ∷ cs) w = (if redeems c w then 1 else 0) + redeemed cs (make redis c w)

  abbrev pub IsAbsent : S → Type 0
  IsAbsent s = redis.get (refresh_token_key hash) s ≡ none

  unequal : (j : String) → str_eq hash j ≡ false → hash ≢ j
  unequal j e p = clash (str_eq hash j) ((eq_iff hash j).1 p) e
    where
      clash : (b : Bool) → b ≡ true → b ≡ false → ⊥
      clash b t f = ground arith

  set-IsAbsent :
      (h : String) (user ttl : ℕ) (s : S)
      → hash ≢ h
      → IsAbsent s
      → IsAbsent (redis.set (refresh_token_key h) user ttl s)
  set-IsAbsent h user ttl s ne gone =
      redis.get_set_ne (refresh_token_key h) (refresh_token_key hash) user ttl s
        (key-ne redis hash h ne)
      ∙ gone

  del-IsAbsent : (j : String) (s : S) → IsAbsent s → IsAbsent (redis.del (refresh_token_key j) s)
  del-IsAbsent j s gone = elim (Bool-cases (str_eq hash j)) [
    | inl e ↦
        subst (λ i. IsAbsent (redis.del (refresh_token_key i) s)) ((eq_iff hash j).0 e)
          (redis.get_del (refresh_token_key hash) s)
    | inr e ↦
        redis.get_del_ne (refresh_token_key j) (refresh_token_key hash) s
          (key-ne redis hash j (unequal j e))
        ∙ gone
  ]

  set_refresh_token-IsAbsent :
      (h : String) (user : ℕ) (w : Store S)
      → hash ≢ h
      → IsAbsent w.keys
      → IsAbsent (set_refresh_token redis h user w).1.keys
  unfolding set_refresh_token
  set_refresh_token-IsAbsent h user w ne gone = elim (Bool-cases (w.down w.sent)) [
    | inl d ↦ rw d gone
    | inr d ↦ rw d (set-IsAbsent h user w.ttl w.keys ne gone)
  ]

  found-IsAbsent :
      (o : Option ℕ) (w : Store S) → IsAbsent w.keys → IsAbsent (found_user_id redis o w).1.keys
  found-IsAbsent none w gone = gone
  found-IsAbsent (some u) w gone = gone

  get_refresh_token-IsAbsent :
      (h : String) (w : Store S) → IsAbsent w.keys → IsAbsent (get_refresh_token redis h w).1.keys
  unfolding get_refresh_token
  get_refresh_token-IsAbsent h w gone = elim (Bool-cases (w.down w.sent)) [
    | inl d ↦ rw d gone
    | inr d ↦ rw d (found-IsAbsent (redis.get (refresh_token_key h) w.keys) _ gone)
  ]

  replace-IsAbsent :
      (new : String) (user : ℕ) (o : Option ℕ) (w : Store S)
      → hash ≢ new
      → IsAbsent w.keys
      → IsAbsent (replace redis new user o w).1.keys
  replace-IsAbsent new user none w ne gone = gone
  replace-IsAbsent new user (some u) w ne gone = elim (Bool-cases (u == user)) [
    | inl e ↦ elim (Bool-cases (w.down w.sent)) [
      | inl d ↦ rw (e, d) gone
      | inr d ↦ rw (e, d) (set-IsAbsent new user w.ttl w.keys ne gone)
    ]
    | inr e ↦ rw e gone
  ]

  rotate_refresh_token-IsAbsent :
      (old new : String) (user : ℕ) (w : Store S)
      → hash ≢ new
      → IsAbsent w.keys
      → IsAbsent (rotate_refresh_token redis old new user w).1.keys
  unfolding rotate_refresh_token
  rotate_refresh_token-IsAbsent old new user w ne gone = elim (Bool-cases (w.down w.sent)) [
    | inl d ↦ rw d gone
    | inr d ↦ rw d (
        replace-IsAbsent new user (redis.get (refresh_token_key old) w.keys) _ ne
          (del-IsAbsent old w.keys gone))
  ]

  delete_refresh_token-IsAbsent :
      (h : String) (w : Store S)
      → IsAbsent w.keys
      → IsAbsent (delete_refresh_token redis h w).1.keys
  unfolding delete_refresh_token
  delete_refresh_token-IsAbsent h w gone = elim (Bool-cases (w.down w.sent)) [
    | inl d ↦ rw d gone
    | inr d ↦ rw d (del-IsAbsent h w.keys gone)
  ]

  blacklist-IsAbsent :
      (jti : String) (ttl : ℕ) (w : Store S)
      → IsAbsent w.keys
      → IsAbsent (blacklist_access_token redis jti ttl w).1.keys
  unfolding blacklist_access_token
  blacklist-IsAbsent jti ttl w gone = elim (Bool-cases (ttl == 0)) [
    | inl z ↦ rw z gone
    | inr z ↦ elim (Bool-cases (w.down w.sent)) [
      | inl d ↦ rw (z, d) gone
      | inr d ↦
          rw (z, d)
            (redis.get_set_ne (access_token_key jti) (refresh_token_key hash) 1 ttl w.keys
                (λ e. access_token_key-ne jti hash (sym e))
              ∙ gone)
    ]
  ]

  is_blacklisted-IsAbsent :
      (jti : String) (w : Store S)
      → IsAbsent w.keys
      → IsAbsent (is_access_token_blacklisted redis jti w).1.keys
  unfolding is_access_token_blacklisted
  is_blacklisted-IsAbsent jti w gone = elim (Bool-cases (w.down w.sent)) [
    | inl d ↦ rw d gone
    | inr d ↦ rw d gone
  ]

  -- A hash that is not stored stays away.
  make-IsAbsent :
      (c : Call) (w : Store S)
      → LeavesUnset hash c
      → IsAbsent w.keys
      → IsAbsent (make redis c w).keys
  make-IsAbsent (saves h user) w l gone = set_refresh_token-IsAbsent h user w l gone
  make-IsAbsent (looks h) w l gone = get_refresh_token-IsAbsent h w gone
  make-IsAbsent (rotates old new user) w l gone =
      rotate_refresh_token-IsAbsent old new user w l gone
  make-IsAbsent (deletes h) w l gone = delete_refresh_token-IsAbsent h w gone
  make-IsAbsent (blacklists jti ttl) w l gone = blacklist-IsAbsent jti ttl w gone
  make-IsAbsent (checks jti) w l gone = is_blacklisted-IsAbsent jti w gone
  make-IsAbsent (waits n) w l gone = redis.absent_elapse (refresh_token_key hash) n w.keys gone

  succeeded-ok : (r : Result (Unit {0}) × Store S) → succeeded r.0 ≡ true → r ≡ (ok tt, r.1)
  succeeded-ok (ok tt, w) h = refl
  succeeded-ok (err e, w) h = ground arith

  -- A call that redeems the hash found it, and leaves it absent.
  redeems-consumes :
      (c : Call) (w : Store S)
      → LeavesUnset hash c
      → redeems c w ≡ true
      → ¬ IsAbsent w.keys × IsAbsent (make redis c w).keys
  redeems-consumes (rotates old new user) w l h =
      let tests = split (str_eq old hash) _ h in
      let same : old ≡ hash = (eq_iff old hash).0 tests.0 in
      let done =
        rotate_refresh_token-consumes redis old new user w _ (λ e. l (sym same ∙ e))
          (succeeded-ok (rotate_refresh_token redis old new user w) tests.1) in
      (
        λ gone. found user (
            sym (subst (λ i. redis.get (refresh_token_key i) w.keys ≡ some user) same done.0)
            ∙ gone),
        subst
            (λ i.
              redis.get (refresh_token_key i) (rotate_refresh_token redis old new user w).1.keys
              ≡ none)
            same done.1,
      )
    where
      split : (a b : Bool) → a && b ≡ true → (a ≡ true) × (b ≡ true)
      split a b e = ground arith

      found : (u : ℕ) → ◌≡◌ {A = Option ℕ} (some u) none → ⊥
      found u e = ground arith
  redeems-consumes (saves hash user) w l h = ground arith
  redeems-consumes (looks hash) w l h = ground arith
  redeems-consumes (deletes hash) w l h = ground arith
  redeems-consumes (blacklists jti ttl) w l h = ground arith
  redeems-consumes (checks jti) w l h = ground arith
  redeems-consumes (waits n) w l h = ground arith

  absent_redeemed :
      (cs : List Call) (w : Store S)
      → All (LeavesUnset hash) cs
      → IsAbsent w.keys
      → redeemed cs w ≡ 0
  absent_redeemed [] w l gone = refl
  absent_redeemed (c ∷ cs) w l gone = elim (Bool-cases (redeems c w)) [
    | inl e ↦ absurd ((redeems-consumes c w l.0 e).0 gone)
    | inr e ↦
        let rest = absent_redeemed cs (make redis c w) l.1 (make-IsAbsent c w l.0 gone) in
        rw e (omega (arith, rest))
  ]

  -- Of all the calls of RotateRefreshToken with one old hash, in any sequence of calls of the session
  -- store by whatever clients, none of which stores that hash, answered or not and with any time
  -- between them, at most one succeeds.
  pub redeemed-once : (cs : List Call) (w : Store S) → All (LeavesUnset hash) cs → redeemed cs w ≤ 1
  redeemed-once [] w l = omega arith
  redeemed-once (c ∷ cs) w l = elim (Bool-cases (redeems c w)) [
    | inl e ↦
        let rest = absent_redeemed cs (make redis c w) l.1 (redeems-consumes c w l.0 e).1 in
        rw e (omega (arith, rest))
    | inr e ↦ let rest = redeemed-once cs (make redis c w) l.1 in rw e (omega (arith, rest))
  ]
