-- ===== src/Database/Runs.antt =====
-- A program logic for actions. `Runs b m E Q`: run on the tables `b`, under any outages, the action
-- either fails in a state where `E` holds of the tables, or returns and `Q` holds of its result and
-- the tables. The rules follow the chain of a do block.
use task_management.Base.{String, Bool, true, false, ◌≡◌, refl, Bool-cases, inl, inr}
use task_management.Domain.Errors.{Failure, Result, ok, err}
use task_management.Domain.Results.{Gives, Holds}
use task_management.Database.Tables.{Db}
use task_management.Database.Tx.{
  World, Action, proceed, count_request, recast_result, settle, commit, finish, lift, pure, ◌>>=◌,
  recast, exec, query, within_tx,
}

abbrev pub Post : {A : Type 0} → (Db → Type 0) → (A → Db → Type 0) → Result A × World → Type 0
Post E Q (ok a, w) = Q a w.db
Post E Q (err e, w) = E w.db

abbrev pub on : Db → World → World
on b w = record w { db = b }

pub record Runs {A : Type 0} (b : Db) (m : Action A) (E : Db → Type 0) (Q : A → Db → Type 0)
    : Type 0 where
  pub at : (w : World) → Post E Q (m (on b w))

-- What a statement that goes through leaves behind.
abbrev pub Yields : {A : Type 0} → Result (A × Db) → (A → Db → Type 0) → Type 0
Yields (ok (a, b)) Q = Q a b
Yields (err e) Q = Unit

-- Inside a transaction a failure is rolled back, so nothing is asked of the tables then.
abbrev pub Anything : Db → Type 0
Anything b = Unit

module _ {A : Type 0} (E : Db → Type 0) (Q : A → Db → Type 0) where
  lift_lem :
      (b : Db) (r : Result A)
      → E b
      → ((a : A) → r ≡ ok a → Q a b)
      → (w : World) → Post E Q (r, on b w)
  lift_lem b (ok a) fails rest w = rest a refl
  lift_lem b (err f) fails rest w = fails

  settle_lem :
      (b : Db) (r : Result (A × Db)) (w : World) → E b → Yields r Q → Post E Q (settle (on b w) r)
  settle_lem b (ok (a, b')) w fails h = h
  settle_lem b (err f) w fails h = fails

  Post-recast :
      (g : Failure → Failure) (r : Result A × World)
      → Post E Q r
      → Post E Q (recast_result g r.0, r.1)
  Post-recast g (ok a, w) h = h
  Post-recast g (err e, w) h = h

module _ {A : Type 0} (E : Db → Type 0) (Q : A → Db → Type 0) where
  Post-lift :
      (b : Db) (r : Result A) → E b → Holds r (λ a. Q a b) → (w : World) → Post E Q (r, on b w)
  Post-lift b (ok a) fails h w = h
  Post-lift b (err f) fails h w = fails

module _ {A B : Type 0} (E : Db → Type 0) (R : A → Db → Type 0) (Q : B → Db → Type 0) where
  Post-proceed :
      (r : Result A × World) (k : A → Action B)
      → Post E R r
      → ((a : A) (b : Db) → R a b → Runs b (k a) E Q)
      → Post E Q (proceed r.0 k r.1)
  Post-proceed (ok a, w) k h rest = (rest a w.db h).at w
  Post-proceed (err e, w) k h rest = h

module _ {A : Type 0} (Q : A → Db → Type 0) where
  Post-commit : (b : Db) (a : A) (w : World) → Q a w.db → Post (λ b'. b' ≡ b) Q (commit b a w)
  Post-commit b a w h = elim (Bool-cases (w.down w.requests)) [ inl d ↦ rw d refl | inr d ↦ rw d h ]

  Post-finish :
      (b : Db) (r : Result A × World) → Post Anything Q r → Post (λ b'. b' ≡ b) Q (finish b r.0 r.1)
  Post-finish b (ok a, w) h = Post-commit b a w h
  Post-finish b (err e, w) h = refl

module _ {A : Type 0} {E : Db → Type 0} {Q : A → Db → Type 0} where
  pub returns : (b : Db) (a : A) → Q a b → Runs b (pure a) E Q
  unfolding lift
  returns b a h = record { at = λ w. h }

  pub lift_runs : (b : Db) (r : Result A) → E b → ((a : A) → r ≡ ok a → Q a b) → Runs b (lift r) E Q
  unfolding lift
  lift_runs b r fails rest = record { at = lift_lem E Q b r fails rest }

  pub lift_gives_runs : (b : Db) (r : Result A) → E b → Gives r (λ a. Q a b) → Runs b (lift r) E Q
  unfolding lift
  lift_gives_runs b r fails g = record { at = Post-lift E Q b r fails g.at }

  pub query_runs :
      (b : Db) (prefix : String) (f : Db → Result A)
      → E b
      → ((a : A) → f b ≡ ok a → Q a b)
      → Runs b (query prefix f) E Q
  unfolding query
  query_runs b prefix f fails rest = record {
    at = λ w. elim (Bool-cases (w.down w.requests)) [
      | inl d ↦ rw d fails
      | inr d ↦ rw d (lift_lem E Q b (f b) fails rest (count_request w))
    ];
  }

  pub exec_runs :
      (b : Db) (prefix : String) (f : Db → Result (A × Db))
      → E b
      → Yields (f b) Q
      → Runs b (exec prefix f) E Q
  unfolding exec
  exec_runs b prefix f fails h = record {
    at = λ w. elim (Bool-cases (w.down w.requests)) [
      | inl d ↦ rw d fails
      | inr d ↦ rw d (settle_lem E Q b (f b) (count_request w) fails h)
    ];
  }

  pub recast_runs :
      (b : Db) (g : Failure → Failure) (m : Action A) → Runs b m E Q → Runs b (recast g m) E Q
  unfolding recast
  recast_runs b g m run = record { at = λ w. Post-recast E Q g (m (on b w)) (run.at w) }

module _ {A B : Type 0} {E : Db → Type 0} {R : A → Db → Type 0} {Q : B → Db → Type 0} where
  pub bind_runs :
      (b : Db) (m : Action A) (k : A → Action B)
      → Runs b m E R
      → ((a : A) (b' : Db) → R a b' → Runs b' (k a) E Q)
      → Runs b (m >>= k) E Q
  unfolding ◌>>=◌
  bind_runs b m k run rest = record { at = λ w. Post-proceed E R Q (m (on b w)) k (run.at w) rest }

-- One step of a do block, and the rest of it.
module _ {A B : Type 0} {E : Db → Type 0} {Q : B → Db → Type 0} where
  pub chain :
      {b : Db} {m : Action A} {k : A → Action B}
      → Runs b m E (λ a b'. Runs b' (k a) E Q)
      → Runs b (m >>= k) E Q
  chain {b} {m} {k} run = bind_runs {R = λ a b'. Runs b' (k a) E Q} b m k run (λ a b' h. h)

module _ {A : Type 0} {Q : A → Db → Type 0} where
  -- A transaction is all or nothing.
  pub within_tx_runs :
      (b : Db) (fn : Bool → Action A)
      → Runs b (fn true) Anything Q
      → Runs b (within_tx false fn) (λ b'. b' ≡ b) Q
  unfolding within_tx
  within_tx_runs b fn run = record {
    at = λ w. elim (Bool-cases (w.down w.requests)) [
      | inl d ↦ rw d refl
      | inr d ↦ rw d (Post-finish Q b (fn true (count_request (on b w))) (run.at (count_request w)))
    ];
  }

-- Weaker conditions.
module _ {A : Type 0} {E E' : Db → Type 0} {Q Q' : A → Db → Type 0} where
  weaken_lem :
      (r : Result A × World)
      → ((b' : Db) → E b' → E' b')
      → ((a : A) (b' : Db) → Q a b' → Q' a b')
      → Post E Q r
      → Post E' Q' r
  weaken_lem (ok a, w) e q h = q a w.db h
  weaken_lem (err f, w) e q h = e w.db h

  pub weaken_runs :
      (b : Db) (m : Action A)
      → ((b' : Db) → E b' → E' b')
      → ((a : A) (b' : Db) → Q a b' → Q' a b')
      → Runs b m E Q
      → Runs b m E' Q'
  weaken_runs b m e q run = record { at = λ w. weaken_lem (m (on b w)) e q (run.at w) }
