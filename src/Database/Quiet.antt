-- ===== src/Database/Quiet.antt =====
-- A program logic for a server that answers: `Completes b m Q` says that, run on the tables `b` with
-- no outage, the action returns, and `Q` holds of its result and the tables.
use task_management.Base.{ℕ, String, Bool, true, false, ◌≡◌}
use task_management.Domain.Errors.{Failure, Result, ok, err}
use task_management.Database.Tables.{Db}
use task_management.Database.Tx.{
  World, Action, proceed, count_request, recast_result, finish, lift, ◌>>=◌, recast, exec, query,
  within_tx,
}
use task_management.Database.Runs.{on}

abbrev pub IsQuiet : World → Type 0
IsQuiet w = (n : ℕ) → w.down n ≡ false

abbrev pub Done : {A : Type 0} → (A → Db → Type 0) → Result A × World → Type 0
Done Q (ok a, w) = Q a w.db × IsQuiet w
Done Q (err e, w) = ⊥

pub record Completes {A : Type 0} (b : Db) (m : Action A) (Q : A → Db → Type 0) : Type 0 where
  pub at : (w : World) → IsQuiet w → Done Q (m (on b w))

module _ {A : Type 0} (Q : A → Db → Type 0) where
  Done-recast_result :
      (g : Failure → Failure) (r : Result A × World) → Done Q r → Done Q (recast_result g r.0, r.1)
  Done-recast_result g (ok a, w) h = h
  Done-recast_result g (err e, w) h = h

  Done-finish : (b : Db) (r : Result A × World) → Done Q r → Done Q (finish b r.0 r.1)
  Done-finish b (ok a, w) h = rw (h.1 w.requests) h
  Done-finish b (err e, w) h = elim h [ ]

module _ {A : Type 0} {Q : A → Db → Type 0} where
  pub lift_completes : (b : Db) (r : Result A) (a : A) → r ≡ ok a → Q a b → Completes b (lift r) Q
  unfolding lift
  lift_completes b r a e h = record { at = λ w quiet. rw e (h, quiet) }

  pub query_completes :
      (b : Db) (prefix : String) (f : Db → Result A) (a : A)
      → f b ≡ ok a
      → Q a b
      → Completes b (query prefix f) Q
  unfolding query
  query_completes b prefix f a e h = record { at = λ w quiet. rw (quiet w.requests, e) (h, quiet) }

  pub exec_completes :
      (b b' : Db) (prefix : String) (f : Db → Result (A × Db)) (a : A)
      → f b ≡ ok (a, b')
      → Q a b'
      → Completes b (exec prefix f) Q
  unfolding exec
  exec_completes b b' prefix f a e h = record {
    at = λ w quiet. rw (quiet w.requests, e) (h, quiet);
  }

  pub recast_completes :
      (b : Db) (g : Failure → Failure) (m : Action A) → Completes b m Q → Completes b (recast g m) Q
  unfolding recast
  recast_completes b g m run = record {
    at = λ w quiet. Done-recast_result Q g (m (on b w)) (run.at w quiet);
  }

  pub within_tx_completes :
      (b : Db) (fn : Bool → Action A) → Completes b (fn true) Q → Completes b (within_tx false fn) Q
  unfolding within_tx
  within_tx_completes b fn run = record {
    at = λ w quiet.
        rw (quiet w.requests)
          (Done-finish Q b (fn true (count_request (on b w))) (run.at (count_request w) quiet));
  }

module _ {A B : Type 0} (Q : B → Db → Type 0) where
  Done-proceed :
      (r : Result A × World) (k : A → Action B)
      → Done (λ a b. Completes b (k a) Q) r
      → Done Q (proceed r.0 k r.1)
  Done-proceed (ok a, w) k h = h.0.at w h.1
  Done-proceed (err e, w) k h = elim h [ ]

module _ {A B : Type 0} {Q : B → Db → Type 0} where
  pub chain_completes :
      {b : Db} {m : Action A} {k : A → Action B}
      → Completes b m (λ a b'. Completes b' (k a) Q)
      → Completes b (m >>= k) Q
  unfolding ◌>>=◌
  chain_completes {b} {m} {k} run = record {
    at = λ w quiet. Done-proceed Q (m (on b w)) k (run.at w quiet);
  }
