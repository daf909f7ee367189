-- ===== src/Config/Valid.antt =====
-- A configuration that passes the checks.
use Prim.Native.String.{len}
use task_management.Base.{
  ℕ, suc, ◌*◌, ◌≤◌, String, Bool, true, false, not, List, [], ◌∷◌, All, ◌≡◌, ◌↔◌, refl, arith, ◌&&◌,
  ◌||◌, ◌⊎◌, inl, inr, str_eq, eq_iff, Bool-cases, sym,
}
use task_management.Domain.Listing.{ℤ, pos, negsuc}
use task_management.Domain.Time.{second}
use task_management.Config.{
  Config, above, up_to, longer, contains, checks, failures, is_production, weak_secret, validate,
}

-- A number from `m` to `n`.
abbrev pub Between : ℕ → ℕ → ℤ → Type 0
Between m n (pos k) = (m ≤ k) × (k ≤ n)
Between m n (negsuc k) = ⊥

abbrev pub Positive : ℤ → Type 0
Positive (pos k) = 1 ≤ k
Positive (negsuc k) = ⊥

pub record IsValid (c : Config) : Type 0 where
  pub app_env : (c.app_env ≡ "development") ⊎ (c.app_env ≡ "test") ⊎ (c.app_env ≡ "production")
  pub log_format : (c.log_format ≡ "json") ⊎ (c.log_format ≡ "console")
  pub http_port : Between 1 65535 c.http_port
  pub body_limit : Positive c.body_limit_bytes
  pub bcrypt_cost : Between 10 16 c.bcrypt_cost
  pub access_token_ttl : Positive c.access_token_ttl
  pub refresh_token_ttl : longer c.refresh_token_ttl c.access_token_ttl ≡ true
  pub same_site :
      (c.cookie_same_site ≡ "Strict") ⊎ (c.cookie_same_site ≡ "Lax") ⊎ (c.cookie_same_site ≡ "None")
  pub none_is_secure : c.cookie_same_site ≡ "None" → c.cookie_secure ≡ true
  pub task_list_ttl : Between 1 (3600 * second) c.task_list_ttl
  pub limits : Positive c.global_max × Positive c.auth_max
  pub failures : Between 1 999 c.consecutive_failures
  pub open_timeout : Positive c.open_timeout
  pub credentials : c.allow_credentials ≡ true → contains c.allowed_origins "*" ≡ false
  pub secret : c.app_env ≡ "production" → 32 ≤ len c.secret

none-failures : (cs : List (Bool × String)) → failures cs ≡ [] → All (λ c. c.0 ≡ true) cs
none-failures [] h = tt
none-failures (c ∷ cs) h = elim (Bool-cases c.0) [
  | inl e ↦ (e, none-failures cs (rw e at h))
  | inr e ↦ absurd (cons (rw e at h))
]
  where
    cons : c.1 ∷ failures cs ≡ [] → ⊥
    cons p = ground arith

failures-none : (cs : List (Bool × String)) → All (λ c. c.0 ≡ true) cs → failures cs ≡ []
failures-none [] h = refl
failures-none (c ∷ cs) h = rw (h.0, failures-none cs h.1) refl

Between-test : (m n : ℕ) (z : ℤ) → (above m z && up_to n z ≡ true) → Between (suc m) n z
Between-test m n (pos k) h = (ground arith, ground arith)
Between-test m n (negsuc k) h = ground arith

test-Between : (m n : ℕ) (z : ℤ) → Between (suc m) n z → above m z && up_to n z ≡ true
test-Between m n (pos k) (l, u) = ground arith
test-Between m n (negsuc k) h = elim h [ ]

Positive-test : (z : ℤ) → above 0 z ≡ true → Positive z
Positive-test (pos k) h = ground arith
Positive-test (negsuc k) h = ground arith

test-Positive : (z : ℤ) → Positive z → above 0 z ≡ true
test-Positive (pos k) h = ground arith
test-Positive (negsuc k) h = elim h [ ]

both : (a b : Bool) → (a && b) ≡ true → (a ≡ true) × (b ≡ true)
both a b h = (ground arith, ground arith)

both_back : (a b : Bool) → a ≡ true → b ≡ true → (a && b) ≡ true
both_back a b h k = ground arith

either : (a b : Bool) → (a || b) ≡ true → (a ≡ true) ⊎ (b ≡ true)
either true b h = inl refl
either false b h = inr h

unless : (a b : Bool) → (not a || b) ≡ true → a ≡ true → b ≡ true
unless a b h k = ground arith

unless_back : (a b : Bool) → (a ≡ true → b ≡ true) → (not a || b) ≡ true
unless_back true b h = h refl
unless_back false b h = refl

same : (x s : String) → str_eq x s ≡ true → s ≡ x
same x s e = sym ((eq_iff x s).0 e)

same_back : (x s : String) → s ≡ x → str_eq x s ≡ true
same_back x s e = (eq_iff x s).1 (sym e)

one_of_two : (x y s : String) → contains (x ∷ y ∷ []) s ≡ true → (s ≡ x) ⊎ (s ≡ y)
one_of_two x y s h = by (either (str_eq x s) (contains (y ∷ []) s) h)
  where
    by : (str_eq x s ≡ true) ⊎ (contains (y ∷ []) s ≡ true) → (s ≡ x) ⊎ (s ≡ y)
    by (inl e) = inl (same x s e)
    by (inr e) = inr (same y s (ground arith))

one_of_three : (x y z s : String) → contains (x ∷ y ∷ z ∷ []) s ≡ true → (s ≡ x) ⊎ (s ≡ y) ⊎ (s ≡ z)
one_of_three x y z s h = by (either (str_eq x s) (contains (y ∷ z ∷ []) s) h)
  where
    by : (str_eq x s ≡ true) ⊎ (contains (y ∷ z ∷ []) s ≡ true) → (s ≡ x) ⊎ (s ≡ y) ⊎ (s ≡ z)
    by (inl e) = inl (same x s e)
    by (inr e) = inr (one_of_two y z s e)

two-contains : (x y s : String) → (s ≡ x) ⊎ (s ≡ y) → contains (x ∷ y ∷ []) s ≡ true
two-contains x y s (inl e) = rw (same_back x s e) refl
two-contains x y s (inr e) = ground (arith, same_back y s e)

three-contains :
    (x y z s : String) → (s ≡ x) ⊎ (s ≡ y) ⊎ (s ≡ z) → contains (x ∷ y ∷ z ∷ []) s ≡ true
three-contains x y z s (inl e) = rw (same_back x s e) refl
three-contains x y z s (inr e) = ground (arith, two-contains y z s e)

strong : (c : Config) → not (weak_secret c) ≡ true → 32 ≤ len c.secret
strong c h = ground arith

not_weak : (c : Config) → 32 ≤ len c.secret → not (weak_secret c) ≡ true
not_weak c h = ground arith

refuted : (b : Bool) → not b ≡ true → b ≡ false
refuted b h = ground arith

refuting : (b : Bool) → b ≡ false → not b ≡ true
refuting b h = ground arith

passes-IsValid : (c : Config) → All (λ k. k.0 ≡ true) (checks c) → IsValid c
unfolding checks
passes-IsValid c
      (
        p1,
        (
          p2,
          (p3, (p4, (p5, (p6, (p7, (p8, (p9, (p10, (p11, (p12, (p13, (p14, (p15, p16))))))))))))),
        ),
      ) =
    record {
      app_env = one_of_three _ _ _ c.app_env p1;
      log_format = one_of_two _ _ c.log_format p2;
      http_port = Between-test 0 65535 c.http_port p3;
      body_limit = Positive-test c.body_limit_bytes p4;
      bcrypt_cost = Between-test 9 16 c.bcrypt_cost p5;
      access_token_ttl = Positive-test c.access_token_ttl p6;
      refresh_token_ttl = p7;
      same_site = one_of_three _ _ _ c.cookie_same_site p8;
      none_is_secure =
          λ e. unless _ c.cookie_secure p9 (same_back c.cookie_same_site "None" (sym e));
      task_list_ttl = Between-test 0 (3600 * second) c.task_list_ttl p10;
      limits =
          (Positive-test c.global_max (both _ _ p11).0, Positive-test c.auth_max (both _ _ p11).1);
      failures = Between-test 0 999 c.consecutive_failures p12;
      open_timeout = Positive-test c.open_timeout p13;
      credentials = λ e. refuted _ (unless c.allow_credentials _ p14 e);
      secret =
          λ e. strong c (unless (is_production c) _ p15 (same_back c.app_env "production" (sym e)));
    }

IsValid-passes : (c : Config) → IsValid c → All (λ k. k.0 ≡ true) (checks c)
unfolding checks
IsValid-passes c v = (
  three-contains _ _ _ c.app_env v.app_env,
  (
    two-contains _ _ c.log_format v.log_format,
    (
      test-Between 0 65535 c.http_port v.http_port,
      (
        test-Positive c.body_limit_bytes v.body_limit,
        (
          test-Between 9 16 c.bcrypt_cost v.bcrypt_cost,
          (
            test-Positive c.access_token_ttl v.access_token_ttl,
            (
              v.refresh_token_ttl,
              (
                three-contains _ _ _ c.cookie_same_site v.same_site,
                (
                  unless_back _ c.cookie_secure
                      (λ e. v.none_is_secure (sym (same c.cookie_same_site "None" e))),
                  (
                    test-Between 0 (3600 * second) c.task_list_ttl v.task_list_ttl,
                    (
                      both_back _ _ (test-Positive c.global_max v.limits.0)
                          (test-Positive c.auth_max v.limits.1),
                      (
                        test-Between 0 999 c.consecutive_failures v.failures,
                        (
                          test-Positive c.open_timeout v.open_timeout,
                          (
                            unless_back c.allow_credentials _ (λ e. refuting _ (v.credentials e)),
                            (
                              unless_back (is_production c) _ (λ e.
                                  not_weak c (v.secret (sym (same c.app_env "production" e)))),
                              tt,
                            ),
                          ),
                        ),
                      ),
                    ),
                  ),
                ),
              ),
            ),
          ),
        ),
      ),
    ),
  ),
)

-- The checks of a configuration report nothing exactly when its settings are within their bounds and
-- agree with each other: the port from 1 to 65535, the bcrypt cost from 10 to 16, refresh tokens that
-- outlive access tokens, positive limits, no credentials for every origin, a long secret in
-- production, and the others that IsValid lists.
pub validate-IsValid : (c : Config) → (validate c ≡ []) ↔ IsValid c
unfolding validate
validate-IsValid c = (
  λ h. passes-IsValid c (none-failures (checks c) h),
  λ v. failures-none (checks c) (IsValid-passes c v),
)
