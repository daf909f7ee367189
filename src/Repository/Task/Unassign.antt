-- ===== src/Repository/Task/Unassign.antt =====
-- The history rows of UnassignUser are all that its first statement changes.
use task_management.Base.{ℕ, List, [], ◌∷◌, ◌≡◌, refl, inl, inr, Bool-cases}
use task_management.Domain.Task.{Task}
use task_management.Database.Tables.{Db}
use task_management.Repository.Task.{record_unassigned, assigned_to}

-- Every table but the history is as before.
pub record OnlyHistory (b b' : Db) : Type 0 where
  pub users : b'.users ≡ b.users
  pub teams : b'.teams ≡ b.teams
  pub members : b'.members ≡ b.members
  pub tasks : b'.tasks ≡ b.tasks
  pub comments : b'.comments ≡ b.comments

pub record_unassigned-OnlyHistory :
    (xs : List Task) (t u by now : ℕ) (b : Db) → OnlyHistory b (record_unassigned xs t u by now b)
record_unassigned-OnlyHistory [] t u by now b = record {
  users = refl;
  teams = refl;
  members = refl;
  tasks = refl;
  comments = refl;
}
record_unassigned-OnlyHistory (x ∷ xs) t u by now b = elim (Bool-cases (assigned_to t u x)) [
  | inl e ↦ rw e (keep (record_unassigned-OnlyHistory xs t u by now _))
  | inr e ↦ rw e (record_unassigned-OnlyHistory xs t u by now b)
]
  where
    keep :
        {c d : Db}
        → OnlyHistory c d
        → OnlyHistory (record c { history = b.history; next_history = b.next_history }) d
    keep h = record {
      users = h.users;
      teams = h.teams;
      members = h.members;
      tasks = h.tasks;
      comments = h.comments;
    }
