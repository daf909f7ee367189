-- ===== src/Service/Account.antt =====
-- What internal/service/auth.go and user.go work on: the tables and the session store, with the
-- password hasher and the token service of pkg/auth as an interface, since bcrypt, JWT and random
-- numbers stand behind them. A number stands for the randomness of a call.
use mathlib.Core.Path.{subst}
use task_management.Base.{ℕ, String, Bool, Option, ◌≡◌, refl, arith}
use task_management.Domain.Errors.{Failure, Result, ok, err}
use task_management.Database.Tx.{World, Action, recast_result}
use task_management.Cache.Token.{Store}

-- The claims that are read: the user, the token's id and its expiry.
pub record Claims : Type 0 where
  pub user_id : ℕ
  pub jti : String
  pub expires_at : ℕ

-- `auth.Hasher` and `auth.TokenService`.
pub record Crypto : Type 0 where
  pub hash : ℕ → String → Result String
  -- does the password match the hash?
  pub compare : String → String → Bool
  pub generate_access_token : ℕ → ℕ → String → Result String
  pub generate_refresh_token : ℕ → Result String
  pub hash_refresh_token : String → String
  pub validate_access_token : String → Option Claims

abbrev pub Account : Type 0 → Type 0 → Type 0
Account S A = World × Store S → Result A × (World × Store S)

module _ {S A : Type 0} where
  unfoldable pub on_tables : Action A → Account S A
  on_tables m (w, s) = let (r, w') = m w in (r, (w', s))

  unfoldable pub on_sessions : (Store S → Result A × Store S) → Account S A
  on_sessions f (w, s) = let (r, s') = f s in (r, (w, s'))

  unfoldable pub settled : Result A → Account S A
  settled r w = (r, w)

  -- `if errors.Is(err, ...) { return other }`
  unfoldable pub recast_account : (Failure → Failure) → Account S A → Account S A
  recast_account f m w = let (r, w') = m w in (recast_result f r, w')

module _ {S A B : Type 0} where
  abbrev pub go_on : Result A → (A → Account S B) → Account S B
  go_on (ok a) f w = f a w
  go_on (err e) f w = (err e, w)

  infixl 5 ◌>>=◌ ◌>>◌
  unfoldable pub ◌>>=◌ : Account S A → (A → Account S B) → Account S B
  ◌>>=◌ m f w = let (r, w') = m w in go_on r f w'

  abbrev pub ◌>>◌ : Account S A → Account S B → Account S B
  m >> k = m >>= λ _. k

module _ {S A : Type 0} where
  -- What holds of the result and of the state when a call returns without an error.
  abbrev pub Good : (A → World × Store S → Type 0) → Result A × (World × Store S) → Type 0
  Good Q (ok a, w) = Q a w
  Good Q (err e, w) = Unit

  pub Good-settled :
      (Q : A → World × Store S → Type 0) (r : Result A) (w : World × Store S)
      → ((a : A) → Q a w)
      → Good Q (settled r w)
  unfolding settled
  Good-settled Q (ok a) w h = h a
  Good-settled Q (err e) w h = tt

  pub Good-any :
      (Q : A → World × Store S → Type 0) (r : Result A × (World × Store S))
      → ((a : A) (w : World × Store S) → Q a w)
      → Good Q r
  Good-any Q (ok a, w) h = h a w
  Good-any Q (err e, w) h = tt

  Good-recast_result :
      (Q : A → World × Store S → Type 0) (f : Failure → Failure) (r : Result A × (World × Store S))
      → Good Q r
      → Good Q (recast_result f r.0, r.1)
  Good-recast_result Q f (ok a, w) h = h
  Good-recast_result Q f (err e, w) h = tt

  pub Good-recast_account :
      (Q : A → World × Store S → Type 0) (f : Failure → Failure) (m : Account S A)
      (w : World × Store S)
      → Good Q (m w)
      → Good Q (recast_account f m w)
  unfolding recast_account
  Good-recast_account Q f m w h = Good-recast_result Q f (m w) h

  on_tables_result :
      (Q : A → World × Store S → Type 0) (r : Result A × World) (s : Store S)
      → ((a : A) (w : World) → Q a (w, s))
      → Good Q (r.0, (r.1, s))
  on_tables_result Q (ok a, w) s h = h a w
  on_tables_result Q (err e, w) s h = tt

  -- The tables' actions leave the sessions alone.
  pub Good-on_tables :
      (Q : A → World × Store S → Type 0) (m : Action A) (w : World) (s : Store S)
      → ((a : A) (w' : World) → Q a (w', s))
      → Good Q (on_tables m (w, s))
  unfolding on_tables
  Good-on_tables Q m w s h = on_tables_result Q (m w) s h

module _ {S A B : Type 0} (R : A → World × Store S → Type 0)
    (Q : B → World × Store S → Type 0) where
  Good-go_on :
      (r : Result A × (World × Store S)) (k : A → Account S B)
      → Good R r
      → ((a : A) (w : World × Store S) → R a w → Good Q (k a w))
      → Good Q (go_on r.0 k r.1)
  Good-go_on (ok a, w) k h rest = rest a w h
  Good-go_on (err e, w) k h rest = tt

  pub Good-bind :
      (m : Account S A) (k : A → Account S B) (w : World × Store S)
      → Good R (m w)
      → ((a : A) (w' : World × Store S) → R a w' → Good Q (k a w'))
      → Good Q ((m >>= k) w)
  unfolding ◌>>=◌
  Good-bind m k w h rest = Good-go_on (m w) k h rest

module _ {S A : Type 0} where
  on_sessions_result :
      (Q : A → World × Store S → Type 0) (r : Result A × Store S) (w : World)
      → ((a : A) (s' : Store S) → r ≡ (ok a, s') → Q a (w, s'))
      → Good Q (r.0, (w, r.1))
  on_sessions_result Q (ok a, s') w h = h a s' refl
  on_sessions_result Q (err e, s') w h = tt

  pub Good-on_sessions :
      (Q : A → World × Store S → Type 0) (f : Store S → Result A × Store S) (w : World)
      (s : Store S)
      → ((a : A) (s' : Store S) → f s ≡ (ok a, s') → Q a (w, s'))
      → Good Q (on_sessions f (w, s))
  unfolding on_sessions
  Good-on_sessions Q f w s h = on_sessions_result Q (f s) w h

  pub Good-returned :
      (Q : A → World × Store S → Type 0) (r : Result A × (World × Store S)) (a : A)
      → Good Q r
      → r.0 ≡ ok a
      → Q a r.1
  Good-returned Q (ok b, w) a g h = subst (λ x. Q x w) (ok_eq b a h) g
    where
      ok_eq : (x y : A) → ok x ≡ ok y → x ≡ y
      ok_eq x y e = cc
  Good-returned Q (err e, w) a g h = ground arith

  pub Good-return :
      (Q : A → World × Store S → Type 0) (a : A) (w : World × Store S)
      → Q a w
      → Good Q (settled (ok a) w)
  unfolding settled
  Good-return Q a w h = h

  on_tables_equation :
      (Q : A → World × Store S → Type 0) (r : Result A × World) (s : Store S)
      → ((a : A) (w : World) → r ≡ (ok a, w) → Q a (w, s))
      → Good Q (r.0, (r.1, s))
  on_tables_equation Q (ok a, w) s h = h a w refl
  on_tables_equation Q (err e, w) s h = tt

  pub Good-tables :
      (Q : A → World × Store S → Type 0) (m : Action A) (w : World) (s : Store S)
      → ((a : A) (w' : World) → m w ≡ (ok a, w') → Q a (w', s))
      → Good Q (on_tables m (w, s))
  unfolding on_tables
  Good-tables Q m w s h = on_tables_equation Q (m w) s h

  pub Good-given :
      (Q : A → World × Store S → Type 0) (r : Result A) (w : World × Store S)
      → ((a : A) → r ≡ ok a → Q a w)
      → Good Q (settled r w)
  unfolding settled
  Good-given Q (ok a) w h = h a refl
  Good-given Q (err e) w h = tt
