-- ===== src/Service/Invariant/Reach.antt =====
-- What holds of the tables after any sequence of requests.
use mathlib.Core.Path.{subst, sym}
use task_management.Base.{ℕ, String, Bool, List, [], ◌∷◌, refl, inl, inr}
use task_management.Domain.Errors.{Result, ok, err}
use task_management.Domain.Team.{User}
use task_management.Database.Tables.{Db}
use task_management.Database.Tx.{World}
use task_management.Database.Runs.{Post}
use task_management.Service.Requests.{Request, serve, run, actor_of}
use task_management.Service.Team.Ownership.{IsGoverned, TeamStep-IsGoverned}
use task_management.Service.Task.Spec.{
  TaskStep, creates, revises, deletes, CommentStep, adds, edits, removes,
}
use task_management.Service.Invariant.Rows.{KeyedTasks}
use task_management.Service.Invariant.Staffing.{
  AllStaffed, TeamStep-AllStaffed, TaskStep-AllStaffed,
}
use task_management.Service.Invariant.Closing.{
  WellClosed, TeamStep-WellClosed, TaskStep-WellClosed, TeamStep-KeyedTasks, TaskStep-KeyedTasks,
}
use task_management.Service.Invariant.Audit.{IsAudited, TeamStep-IsAudited, TaskStep-IsAudited}
use task_management.Service.Invariant.Steps.{
  Step, on_team, on_task, on_comment, Steps, serve-refines,
}

-- One owner in each team and none elsewhere, tasks keyed by their ids, each task's assignee in its
-- team, a closing time exactly on the tasks that are done, and as many history entries on a task as
-- its version says.
pub record IsSound (b : Db) : Type 0 where
  pub governed : IsGoverned b
  pub keyed : KeyedTasks b.tasks
  pub staffed : AllStaffed b.members b.tasks
  pub closed : WellClosed b.tasks
  pub audited : IsAudited b

TaskStep-IsGoverned : {actor : ℕ} {b b' : Db} → TaskStep actor b b' → IsGoverned b → IsGoverned b'
TaskStep-IsGoverned (creates t r cs free is new) g = record {
  keyed = g.keyed;
  one_owner = g.one_owner;
}
TaskStep-IsGoverned (revises old new r is role_is rv) g = record {
  keyed = g.keyed;
  one_owner = g.one_owner;
}
TaskStep-IsGoverned (deletes old r is role_is m) g = record {
  keyed = g.keyed;
  one_owner = g.one_owner;
}

CommentStep-IsSound : {actor : ℕ} {b b' : Db} → CommentStep actor b b' → IsSound b → IsSound b'
CommentStep-IsSound (adds c t r is role_is own free) h = record {
  governed = record { keyed = h.governed.keyed; one_owner = h.governed.one_owner };
  keyed = h.keyed;
  staffed = h.staffed;
  closed = h.closed;
  audited = h.audited;
}
CommentStep-IsSound (edits c t r content now found is role_is own) h = record {
  governed = record { keyed = h.governed.keyed; one_owner = h.governed.one_owner };
  keyed = h.keyed;
  staffed = h.staffed;
  closed = h.closed;
  audited = h.audited;
}
CommentStep-IsSound (removes c t r found is role_is entitled) h = record {
  governed = record { keyed = h.governed.keyed; one_owner = h.governed.one_owner };
  keyed = h.keyed;
  staffed = h.staffed;
  closed = h.closed;
  audited = h.audited;
}

Step-IsSound : {actor : ℕ} {b b' : Db} → Step actor b b' → IsSound b → IsSound b'
Step-IsSound (on_team s) h = record {
  governed = TeamStep-IsGoverned s h.governed;
  keyed = TeamStep-KeyedTasks s h.keyed;
  staffed = TeamStep-AllStaffed s h.staffed;
  closed = TeamStep-WellClosed s h.closed;
  audited = TeamStep-IsAudited s h.keyed h.audited;
}
Step-IsSound (on_task s) h = record {
  governed = TaskStep-IsGoverned s h.governed;
  keyed = TaskStep-KeyedTasks s h.keyed;
  staffed = TaskStep-AllStaffed s h.keyed h.staffed;
  closed = TaskStep-WellClosed s h.keyed h.closed;
  audited = TaskStep-IsAudited s h.audited;
}
Step-IsSound (on_comment s) h = CommentStep-IsSound s h

Steps-IsSound : {actor : ℕ} {b b' : Db} → Steps actor b b' → IsSound b → IsSound b'
Steps-IsSound (inl same) h = subst IsSound (sym same) h
Steps-IsSound (inr s) h = Step-IsSound s h

either : {A : Type 0} (P : Db → Type 0) (r : Result A × World) → Post P (λ _. P) r → P r.1.db
either P (ok a, w) h = h
either P (err e, w) h = h

-- A request leaves sound tables sound, whether it is answered or fails, under any outages.
pub serve-IsSound : (r : Request) (w : World) → IsSound w.db → IsSound (serve r w).1.db
serve-IsSound r w h =
    Steps-IsSound (either (Steps (actor_of r) w.db) (serve r w) ((serve-refines r w.db).at w)) h

-- From sound tables, any sequence of requests, under any outages, leads to sound tables.
pub run-IsSound : (rs : List Request) (w : World) → IsSound w.db → IsSound (run rs w).db
run-IsSound [] w h = h
run-IsSound (r ∷ rs) w h = run-IsSound rs (serve r w).1 (serve-IsSound r w h)

-- The tables after the migrations and the registration of users.
abbrev pub registered : (String → String → Bool) → List User → Db
registered same us = record {
  users = us;
  teams = [];
  members = [];
  tasks = [];
  history = [];
  comments = [];
  next_history = 1;
  same_email = same;
}

abbrev pub started : (String → String → Bool) → List User → (ℕ → Bool) → World
started same us down = record {
  db = registered same us;
  invalidated = [];
  down = down;
  requests = 0;
}

-- From tables with users alone, every sequence of requests by whatever actors, under any outages,
-- ends in sound tables: one owner in each team and none without a team, each task once, no task
-- assigned outside its team, a closing time on a task exactly while it is done, and as many history
-- entries on a task as its version says.
pub reachable-IsSound :
    (rs : List Request) (same : String → String → Bool) (us : List User) (down : ℕ → Bool)
    → IsSound (run rs (started same us down)).db
reachable-IsSound rs same us down = run-IsSound rs (started same us down) (record {
  governed = record { keyed = tt; one_owner = λ i. refl };
  keyed = tt;
  staffed = tt;
  closed = tt;
  audited = λ i. refl;
})
