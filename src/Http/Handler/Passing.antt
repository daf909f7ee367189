-- ===== src/Http/Handler/Passing.antt =====
-- What passes the checks of a handler, and what the calls behind them leave.
use task_management.Base.{
  ℕ, String, Bool, Option, none, some, ◌≡◌, refl, ◌⊎◌, inl, inr, Bool-cases, ◌==◌,
}
use task_management.Domain.Errors.{Result, ok, err}
use task_management.Database.Tables.{Db}
use task_management.Database.Tx.{World, Action}
use task_management.Database.Runs.{Post, returns, query_runs, lift_runs, chain}
use task_management.Service.Invariant.Steps.{Step, Steps, Stepping}
use task_management.Domain.Listing.{TaskListQuery, TaskListResponse, Codec}
use task_management.Repository.Team as Teams
use task_management.Repository.Task as Tasks
use task_management.Repository.Comment as Comments
use task_management.Repository.Task.Listing as Listing
use task_management.Service.Team.{list_teams, list_members, get_stats}
use task_management.Repository.Team.Stats as Stats
use task_management.Service.Team.Refines.{member_role_runs}
use task_management.Service.Task.{get_history, list_comments}
use task_management.Service.Task.Remarks.{visible_task_runs}
use task_management.Service.Task.Listing.{list_tasks, use_cached}
use task_management.Http.Response.{current_user, path_uuid}
use task_management.Http.Handler.Flow.{
  Checked, refused, passed, checked, ◌>>=◌, answer, reply_to, caller_and,
}
use task_management.Http.Handler.Calls.{status_of}

-- What is passed on satisfies P.
abbrev pub Passing : {A : Type 0} → (A → Type 0) → Checked A → Type 0
Passing P (refused e) = Unit
Passing P (passed a) = P a

-- The caller is the one whom the middleware has left.
abbrev pub Is : Option ℕ → ℕ → Type 0
Is user u = user ≡ some u

pub current_user-Passing : (user : Option ℕ) → Passing (Is user) (checked (current_user user))
unfolding current_user
current_user-Passing none = tt
current_user-Passing (some u) = elim (Bool-cases (u == 0)) [ inl e ↦ rw e tt | inr e ↦ rw e refl ]

module _ {A B : Type 0} (P : A → Type 0) (Q : B → Type 0) where
  pub bind-Passing :
      (c : Checked A) (f : A → Checked B)
      → Passing P c
      → ((a : A) → P a → Passing Q (f a))
      → Passing Q (c >>= f)
  unfolding ◌>>=◌
  bind-Passing (refused e) f h k = tt
  bind-Passing (passed a) f h k = k a h

pub Passing-any : {A : Type 0} (c : Checked A) → Passing (λ a. Unit {0}) c
Passing-any (refused e) = tt
Passing-any (passed a) = tt

-- The call changes nothing, or makes one step of the caller's.
abbrev pub ByCaller : Option ℕ → Db → Db → Type 0
ByCaller user b b' = (b' ≡ b) ⊎ (u : ℕ) × (user ≡ some u) × Step u b b'

pub Steps-ByCaller :
    (user : Option ℕ) (u : ℕ) → user ≡ some u → (b b' : Db) → Steps u b b' → ByCaller user b b'
Steps-ByCaller user u is b b' (inl h) = inl h
Steps-ByCaller user u is b b' (inr h) = inr (u, is, h)

module _ {B : Type 0} where
  pub reply_to-ByCaller :
      (user : Option ℕ) (u status : ℕ) (r : Result B × World) (b : Db)
      → user ≡ some u
      → Post (Steps u b) (λ _. Steps u b) r
      → ByCaller user b (reply_to status r).1.db
  reply_to-ByCaller user u status (ok a, w) b is h = Steps-ByCaller user u is b w.db h
  reply_to-ByCaller user u status (err e, w) b is h = Steps-ByCaller user u is b w.db h

module _ {A B : Type 0} where
  pub answer-ByCaller :
      (user : Option ℕ) (caller : A → ℕ) (status : ℕ) (c : Checked A) (call : A → Action B)
      (w : World)
      → Passing (λ a. Is user (caller a)) c
      → ((a : A) → Stepping (caller a) w.db (call a))
      → ByCaller user w.db (status_of (answer status c call w)).1.db
  unfolding answer
  answer-ByCaller user caller status (refused e) call w h run = inl refl
  answer-ByCaller user caller status (passed a) call w h run =
      reply_to-ByCaller user (caller a) status (call a w) w.db h ((run a).at w)

-- The same, where the caller stands beside or before other arguments.
abbrev pub Any : {A : Type 0} → A → Type 0
Any a = Unit {0}

abbrev pub With : {A : Type 0} → Option ℕ → ℕ × A → Type 0
With user c = user ≡ some c.0

abbrev pub Within : {A : Type 0} → Option ℕ → (ℕ × ℕ) × A → Type 0
Within user c = user ≡ some c.0.0

abbrev pub Around : {A B : Type 0} → Option ℕ → (ℕ × ℕ) × A × B → Type 0
Around user c = user ≡ some c.0.0

pub caller_and-Passing :
    (text : String) (user id : Option ℕ) → Passing (With user) (caller_and text user id)
unfolding caller_and
caller_and-Passing text user id =
    bind-Passing (Is user) (With user) (checked (current_user user)) _ (current_user-Passing user)
      λ u is. bind-Passing Any (With user) (checked (path_uuid text id)) _ (Passing-any _) λ i _. is

module _ {A : Type 0} where
  pub body-Passing :
      (user : Option ℕ) (body : Checked A)
      → Passing (With user) (checked (current_user user) >>= λ u. body >>= λ a. passed (u, a))
  body-Passing user body =
      bind-Passing (Is user) (With user) (checked (current_user user)) _ (current_user-Passing user)
        λ u is. bind-Passing Any (With user) body _ (Passing-any body) λ a _. is

  pub id-Passing :
      (text : String) (user id : Option ℕ) (rest : Checked A)
      → Passing (Within user) (caller_and text user id >>= λ c. rest >>= λ a. passed (c, a))
  id-Passing text user id rest =
      bind-Passing (With user) (Within user) (caller_and text user id) _
        (caller_and-Passing text user id)
        λ c is. bind-Passing Any (Within user) rest _ (Passing-any rest) λ a _. is

module _ {A B : Type 0} where
  pub two-Passing :
      (text : String) (user id : Option ℕ) (first : Checked A) (rest : Checked B)
      → Passing {A = (ℕ × ℕ) × A × B}
          (Around user)
          (caller_and text user id >>= λ c. first >>= λ a. rest >>= λ b. passed (c, a, b))
  two-Passing text user id first rest =
      bind-Passing (With user) (Around user) (caller_and text user id) _
        (caller_and-Passing text user id)
        λ c is.
          bind-Passing Any (Around user) first _ (Passing-any first)
            λ a _. bind-Passing Any (Around user) rest _ (Passing-any rest) λ b _. is

-- The calls that only read.
module _ (b : Db) where
  pub list_teams-Steps : (u : ℕ) → Stepping u b (list_teams u)
  unfolding list_teams Teams.list_by_user
  list_teams-Steps u = query_runs b _ _ (inl refl) (λ _ _. inl refl)

  pub list_members-Steps : (u t : ℕ) → Stepping u b (list_members u t)
  unfolding list_members Teams.list_members
  list_members-Steps u t =
      chain (member_role_runs b t u (inl refl) λ _ _. query_runs b _ _ (inl refl) (λ _ _. inl refl))

  pub get_stats-Steps :
      (name_first : String → String → Bool) (now u t : ℕ)
      → Stepping u b (get_stats name_first now u t)
  unfolding get_stats Stats.get_stats
  get_stats-Steps name_first now u t = chain (
      member_role_runs b t u (inl refl) λ _ _.
        chain (lift_runs b _ (inl refl) λ _ _. query_runs b _ _ (inl refl) (λ _ _. inl refl)))

  pub get_history-Steps : (u t : ℕ) → Stepping u b (get_history u t)
  unfolding get_history Tasks.list_history
  get_history-Steps u t =
      chain (
        visible_task_runs b t u (inl refl) λ _ _ _ _. query_runs b _ _ (inl refl) (λ _ _. inl refl))

  pub list_comments-Steps : (u t : ℕ) → Stepping u b (list_comments u t)
  unfolding list_comments Comments.list_comments
  list_comments-Steps u t =
      chain (
        visible_task_runs b t u (inl refl) λ _ _ _ _. query_runs b _ _ (inl refl) (λ _ _. inl refl))

  pub use_cached-Steps :
      (codec : Codec) (like : String → String → Bool) (now u : ℕ) (cached : Option TaskListResponse)
      (m : Action TaskListResponse)
      → Stepping u b m
      → Stepping u b (use_cached codec like now cached m)
  use_cached-Steps codec like now u none m h = h
  use_cached-Steps codec like now u (some page) m h = returns b page (inl refl)

  pub list_tasks-Steps :
      (codec : Codec) (like : String → String → Bool) (now : ℕ) (cached : Option TaskListResponse)
      (u : ℕ) (q : TaskListQuery)
      → Stepping u b (list_tasks codec like now cached u q)
  unfolding list_tasks Listing.list Listing.count
  list_tasks-Steps codec like now cached u q = chain (
      member_role_runs b q.team_id u (inl refl) λ _ _. chain (
        lift_runs b _ (inl refl) λ after _. use_cached-Steps codec like now u cached _ (
          chain (
            query_runs b _ _ (inl refl)
              λ _ _. chain (query_runs b _ _ (inl refl) λ _ _. returns b _ (inl refl))))))
