-- ===== src/Service/Task/Spec.antt =====
-- What the task service promises: the changes to tasks that an actor is entitled to.
use task_management.Base.{ℕ, String, false, true, Option, none, some, List, ◌∷◌, ◌≡◌, ◌⊎◌, is_some}
use task_management.Domain.Team.{Role, TeamMember}
use task_management.Domain.Task.{
  Task, status_eq, todo, done, is_assignee, TaskChanges, TaskComment, created, updated,
}
use task_management.Database.Tables.{Db, role_of, find_task, find_comment}
use task_management.Repository.Comment.{comment_exists, set_content, drop_comment}
use task_management.Repository.Task.{update_rows, push_history, without_task}
use task_management.Service.Team.Spec.{Manages}
use task_management.Service.Task.Diff.{diff}

-- Managers and the creator may change everything.
abbrev pub MayEdit : Role → ℕ → Task → Type 0
MayEdit r actor t = Manages r ⊎ (t.created_by ≡ actor)

-- No assignee, or a member of the team.
abbrev pub IsStaffed : List TeamMember → ℕ → Option ℕ → Type 0
IsStaffed ms team none = Unit
IsStaffed ms team (some u) = is_some (role_of team u ms) ≡ true

-- The closing time is set exactly while the task is done.
abbrev pub ClosedWhenDone : Task → Type 0
ClosedWhenDone t = is_some t.closed_at ≡ status_eq t.status done

-- What an actor of the role may make of a task.
pub record IsRevision (r : Role) (actor : ℕ) (ms : List TeamMember) (old new : Task) : Type 0 where
  pub identity : (new.id ≡ old.id) × (new.team_id ≡ old.team_id) × (new.created_by ≡ old.created_by)
  pub origin : (new.created_at ≡ old.created_at) × (new.version ≡ old.version)
  pub entitled : MayEdit r actor old ⊎ (is_assignee old actor ≡ true)
  pub content :
      MayEdit r actor old
      ⊎ ((new.title ≡ old.title)
          × (new.description ≡ old.description)
          × (new.priority ≡ old.priority)
          × (new.due_at ≡ old.due_at))
  pub assignment :
      (new.assignee_id ≡ old.assignee_id)
      ⊎ (MayEdit r actor old × IsStaffed ms old.team_id new.assignee_id)
  pub closing : ClosedWhenDone old → ClosedWhenDone new

-- A task as it starts.
pub record IsNew (actor : ℕ) (ms : List TeamMember) (t : Task) : Type 0 where
  pub creator : t.created_by ≡ actor
  pub open_status : t.status ≡ todo
  pub not_closed : t.closed_at ≡ none
  pub first_version : t.version ≡ 1
  pub staffed : IsStaffed ms t.team_id t.assignee_id

pub data TaskStep (actor : ℕ) (b : Db) : Db → Type 0 where
  creates :
      (t : Task) (r : Role) (cs : TaskChanges)
      → find_task t.id b.tasks ≡ none
      → role_of t.team_id actor b.members ≡ some r
      → IsNew actor b.members t
      → TaskStep actor b
          (push_history t.id actor created cs t.updated_at (record b { tasks = t ∷ b.tasks }))
  revises :
      (old new : Task) (r : Role)
      → find_task old.id b.tasks ≡ some old
      → role_of old.team_id actor b.members ≡ some r
      → IsRevision r actor b.members old new
      → TaskStep actor b (
          push_history new.id actor updated
            (diff old new)
            new.updated_at
            (record b { tasks = update_rows new new.version b.tasks }))
  deletes :
      (old : Task) (r : Role)
      → find_task old.id b.tasks ≡ some old
      → role_of old.team_id actor b.members ≡ some r
      → MayEdit r actor old
      → TaskStep actor b (without_task old.id b)

-- A change to one comment on a task of a team that the actor is in: of his own, or, for a manager of
-- the team, the removal of anyone's.
pub data CommentStep (actor : ℕ) (b : Db) : Db → Type 0 where
  adds :
      (c : TaskComment) (t : Task) (r : Role)
      → find_task c.task_id b.tasks ≡ some t
      → role_of t.team_id actor b.members ≡ some r
      → c.user_id ≡ actor
      → comment_exists c.id b.comments ≡ false
      → CommentStep actor b (record b { comments = c ∷ b.comments })
  edits :
      (c : TaskComment) (t : Task) (r : Role) (content : String) (now : ℕ)
      → find_comment c.task_id c.id b.comments ≡ some c
      → find_task c.task_id b.tasks ≡ some t
      → role_of t.team_id actor b.members ≡ some r
      → c.user_id ≡ actor
      → CommentStep actor b (record b { comments = set_content c.id content now b.comments })
  removes :
      (c : TaskComment) (t : Task) (r : Role)
      → find_comment c.task_id c.id b.comments ≡ some c
      → find_task c.task_id b.tasks ≡ some t
      → role_of t.team_id actor b.members ≡ some r
      → (c.user_id ≡ actor) ⊎ Manages r
      → CommentStep actor b (record b { comments = drop_comment c.id b.comments })
