-- ===== src/Cache/Token/Lasting.antt =====
-- A blacklisted token stays so until its time is up.
use text.Mathlib.TextLemmas.{append_cancel_left}
use mathlib.Core.Path.{subst}
use task_management.Base.{
  ℕ, String, Bool, true, false, none, some, List, [], ◌∷◌, ◌+◌, ◌≤◌, ◌<◌, ◌≡◌, ◌≢◌, refl, sym, ◌∙◌,
  arith, ◌==◌, str_eq, eq_iff, is_some, Option, Bool-cases, inl, inr,
}
use task_management.Cache.Redis.{Redis}
use task_management.Cache.Token.{
  Store, access_token_key, refresh_token_key, replace, set_refresh_token, get_refresh_token,
  rotate_refresh_token, delete_refresh_token, blacklist_access_token, is_access_token_blacklisted,
  found_user_id,
}
use task_management.Cache.Token.Prefixes.{access_token_key-ne}
use task_management.Cache.Token.Calls.{
  Call, saves, looks, rotates, deletes, blacklists, checks, waits, make, make_all, duration, total,
  LeavesBarred, LeaveBarred,
}

module _ {S : Type 0} (redis : Redis S) (jti : String) where
  -- The token is on the blacklist, and stays there until `expires`, at the present clock.
  abbrev pub IsBarred : ℕ → ℕ → S → Type 0
  IsBarred expires clock s =
      (is_some (redis.get (access_token_key jti) s) ≡ true)
      × (expires ≤ clock + redis.left (access_token_key jti) s)

  -- Nothing has happened to the token's key.
  abbrev pub Untouched : S → S → Type 0
  Untouched s s' =
      (redis.get (access_token_key jti) s' ≡ redis.get (access_token_key jti) s)
      × (redis.left (access_token_key jti) s' ≡ redis.left (access_token_key jti) s)

  pub Untouched-IsBarred :
      (expires clock : ℕ) (s s' : S)
      → Untouched s s'
      → IsBarred expires clock s
      → IsBarred expires clock s'
  Untouched-IsBarred expires clock s s' u h = rw (u.0, u.1) h

  set_refresh-Untouched :
      (hash : String) (user ttl : ℕ) (s : S)
      → Untouched s (redis.set (refresh_token_key hash) user ttl s)
  set_refresh-Untouched hash user ttl s = (
    redis.get_set_ne (refresh_token_key hash) (access_token_key jti) user ttl s
        (access_token_key-ne jti hash),
    redis.left_set_ne (refresh_token_key hash) (access_token_key jti) user ttl s
        (access_token_key-ne jti hash),
  )

  del_refresh-Untouched :
      (hash : String) (s : S) → Untouched s (redis.del (refresh_token_key hash) s)
  del_refresh-Untouched hash s = (
    redis.get_del_ne (refresh_token_key hash) (access_token_key jti) s
        (access_token_key-ne jti hash),
    redis.left_del_ne (refresh_token_key hash) (access_token_key jti) s
        (access_token_key-ne jti hash),
  )

  set_refresh_token-Untouched :
      (hash : String) (user : ℕ) (w : Store S)
      → Untouched w.keys (set_refresh_token redis hash user w).1.keys
  unfolding set_refresh_token
  set_refresh_token-Untouched hash user w = elim (Bool-cases (w.down w.sent)) [
    | inl d ↦ rw d (refl, refl)
    | inr d ↦ rw d (set_refresh-Untouched hash user w.ttl w.keys)
  ]

  found-Untouched : (o : Option ℕ) (w : Store S) → Untouched w.keys (found_user_id redis o w).1.keys
  found-Untouched none w = (refl, refl)
  found-Untouched (some u) w = (refl, refl)

  get_refresh_token-Untouched :
      (hash : String) (w : Store S) → Untouched w.keys (get_refresh_token redis hash w).1.keys
  unfolding get_refresh_token
  get_refresh_token-Untouched hash w = elim (Bool-cases (w.down w.sent)) [
    | inl d ↦ rw d (refl, refl)
    | inr d ↦ rw d (found-Untouched (redis.get (refresh_token_key hash) w.keys) _)
  ]

  replace-Untouched :
      (new : String) (user : ℕ) (o : Option ℕ) (w : Store S)
      → Untouched w.keys (replace redis new user o w).1.keys
  replace-Untouched new user none w = (refl, refl)
  replace-Untouched new user (some u) w = elim (Bool-cases (u == user)) [
    | inl e ↦ elim (Bool-cases (w.down w.sent)) [
      | inl d ↦ rw (e, d) (refl, refl)
      | inr d ↦ rw (e, d) (set_refresh-Untouched new user w.ttl w.keys)
    ]
    | inr e ↦ rw e (refl, refl)
  ]

  Untouched-trans : (s s' s'' : S) → Untouched s s' → Untouched s' s'' → Untouched s s''
  Untouched-trans s s' s'' h k = (k.0 ∙ h.0, k.1 ∙ h.1)

  rotate_refresh_token-Untouched :
      (old new : String) (user : ℕ) (w : Store S)
      → Untouched w.keys (rotate_refresh_token redis old new user w).1.keys
  unfolding rotate_refresh_token
  rotate_refresh_token-Untouched old new user w = elim (Bool-cases (w.down w.sent)) [
    | inl d ↦ rw d (refl, refl)
    | inr d ↦ rw d (
        Untouched-trans w.keys (redis.del (refresh_token_key old) w.keys) _
          (del_refresh-Untouched old w.keys)
          (replace-Untouched new user (redis.get (refresh_token_key old) w.keys) _))
  ]

  pub delete_refresh_token-Untouched :
      (hash : String) (w : Store S) → Untouched w.keys (delete_refresh_token redis hash w).1.keys
  unfolding delete_refresh_token
  delete_refresh_token-Untouched hash w = elim (Bool-cases (w.down w.sent)) [
    | inl d ↦ rw d (refl, refl)
    | inr d ↦ rw d (del_refresh-Untouched hash w.keys)
  ]

  is_access_token_blacklisted-Untouched :
      (j : String) (w : Store S) → Untouched w.keys (is_access_token_blacklisted redis j w).1.keys
  unfolding is_access_token_blacklisted
  is_access_token_blacklisted-Untouched j w = elim (Bool-cases (w.down w.sent)) [
    | inl d ↦ rw d (refl, refl)
    | inr d ↦ rw d (refl, refl)
  ]

  pub set_access-IsBarred :
      (expires clock ttl : ℕ) (s : S)
      → 0 < ttl
      → expires ≤ clock + ttl
      → IsBarred expires clock (redis.set (access_token_key jti) 1 ttl s)
  set_access-IsBarred expires clock ttl s some_time enough = (
    rw (redis.get_set (access_token_key jti) 1 ttl s) refl,
    rw (redis.left_set (access_token_key jti) 1 ttl s some_time) enough,
  )

  set_any-IsBarred :
      (j : String) (expires clock ttl : ℕ) (s : S)
      → 0 < ttl
      → (j ≡ jti → expires ≤ clock + ttl)
      → IsBarred expires clock s
      → IsBarred expires clock (redis.set (access_token_key j) 1 ttl s)
  set_any-IsBarred j expires clock ttl s some_time enough h = elim (Bool-cases (str_eq j jti)) [
    | inl e ↦
        subst (λ i. IsBarred expires clock (redis.set (access_token_key i) 1 ttl s))
          (sym ((eq_iff j jti).0 e))
          (set_access-IsBarred expires clock ttl s some_time (enough ((eq_iff j jti).0 e)))
    | inr e ↦
        let ne : access_token_key jti ≢ access_token_key j = λ p.
          clash (str_eq j jti) ((eq_iff j jti).1 (sym (append_cancel_left "auth:bl:" jti j p))) e in
        Untouched-IsBarred expires clock s _
          (
            redis.get_set_ne (access_token_key j) (access_token_key jti) 1 ttl s ne,
            redis.left_set_ne (access_token_key j) (access_token_key jti) 1 ttl s ne,
          )
          h
  ]
    where
      clash : (b : Bool) → b ≡ true → b ≡ false → ⊥
      clash b t f = ground arith

  blacklist-IsBarred :
      (j : String) (expires clock ttl : ℕ) (w : Store S)
      → (j ≡ jti → expires ≤ clock + ttl)
      → IsBarred expires clock w.keys
      → IsBarred expires clock (blacklist_access_token redis j ttl w).1.keys
  unfolding blacklist_access_token
  blacklist-IsBarred j expires clock ttl w enough h = elim (Bool-cases (ttl == 0)) [
    | inl z ↦ rw z h
    | inr z ↦ elim (Bool-cases (w.down w.sent)) [
      | inl d ↦ rw (z, d) h
      | inr d ↦ rw (z, d) (set_any-IsBarred j expires clock ttl w.keys (ground (arith, z)) enough h)
    ]
  ]

  at_once : (expires clock : ℕ) (s : S) → IsBarred expires clock s → IsBarred expires (clock + 0) s
  at_once expires clock s h = (h.0, omega (arith, h.1))

  make-IsBarred :
      (expires clock : ℕ) (c : Call) (w : Store S)
      → clock + duration c < expires
      → LeavesBarred jti expires clock c
      → IsBarred expires clock w.keys
      → IsBarred expires (clock + duration c) (make redis c w).keys
  make-IsBarred expires clock (saves hash user) w live l h =
      at_once expires clock _
        (Untouched-IsBarred expires clock _ _ (set_refresh_token-Untouched hash user w) h)
  make-IsBarred expires clock (looks hash) w live l h =
      at_once expires clock _
        (Untouched-IsBarred expires clock _ _ (get_refresh_token-Untouched hash w) h)
  make-IsBarred expires clock (rotates old new user) w live l h =
      at_once expires clock _
        (Untouched-IsBarred expires clock _ _ (rotate_refresh_token-Untouched old new user w) h)
  make-IsBarred expires clock (deletes hash) w live l h =
      at_once expires clock _
        (Untouched-IsBarred expires clock _ _ (delete_refresh_token-Untouched hash w) h)
  make-IsBarred expires clock (blacklists j ttl) w live l h =
      at_once expires clock _ (blacklist-IsBarred j expires clock ttl w l h)
  make-IsBarred expires clock (checks j) w live l h =
      at_once expires clock _
        (Untouched-IsBarred expires clock _ _ (is_access_token_blacklisted-Untouched j w) h)
  make-IsBarred expires clock (waits n) w live l h =
      let soon : n < redis.left (access_token_key jti) w.keys = omega (arith, live, h.1) in
      (
        rw (redis.get_elapse (access_token_key jti) n w.keys soon) h.0,
        rw (redis.left_elapse (access_token_key jti) n w.keys soon) (omega (arith, soon, h.1)),
      )

  -- Whatever calls are made until then, the token is still on the blacklist.
  pub make_all-IsBarred :
      (expires clock : ℕ) (cs : List Call) (w : Store S)
      → clock + total cs < expires
      → LeaveBarred jti expires clock cs
      → IsBarred expires clock w.keys
      → is_some (redis.get (access_token_key jti) (make_all redis cs w).keys) ≡ true
  make_all-IsBarred expires clock [] w live l h = h.0
  make_all-IsBarred expires clock (c ∷ cs) w live l h =
      make_all-IsBarred expires (clock + duration c) cs (make redis c w) (omega (arith, live)) l.1
        (make-IsBarred expires clock c w (omega (arith, live)) l.0 h)
