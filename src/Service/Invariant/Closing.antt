-- ===== src/Service/Invariant/Closing.antt =====
-- The rows of the task table keep their keys and their closing times through each step of the
-- services.
use mathlib.Core.Path.{subst, sym}
use task_management.Base.{ℕ, some, List, ◌≡◌, refl, ◌&&◌, ◌==◌, Bool-cases, inl, inr, All}
use task_management.Domain.Task.{Task}
use task_management.Database.Tables.{Db, find_task}
use task_management.Repository.Team.{drop_member}
use task_management.Repository.Task.{
  record_unassigned, update_row, unassign_row, unassign_rows, assigned_to,
}
use task_management.Repository.Task.Unassign.{OnlyHistory, record_unassigned-OnlyHistory}
use task_management.Service.Team.Spec.{TeamStep, departed}
use task_management.Service.Task.Spec.{ClosedWhenDone, TaskStep}
use task_management.Service.Invariant.Rows.{
  KeyedTasks, All-update, All-drop_task, All-drop_team, All-unassign, update_rows-KeyedTasks,
  unassign_rows-KeyedTasks, drop_team_tasks-KeyedTasks, drop_task-KeyedTasks,
}

abbrev pub WellClosed : List Task → Type 0
WellClosed = All ClosedWhenDone

-- The rows of a team that a member has left.
departed_tasks :
    (now by t u : ℕ) (b : Db) → (departed now by t u b).tasks ≡ unassign_rows t u now b.tasks
departed_tasks now by t u b = rw same.tasks refl
  where
    left : Db
    left = record b { members = drop_member t u b.members }

    same : OnlyHistory left (record_unassigned b.tasks t u by now left)
    same = record_unassigned-OnlyHistory b.tasks t u by now left

unassign_row-ClosedWhenDone :
    (t u now : ℕ) (x : Task) → ClosedWhenDone x → ClosedWhenDone (unassign_row t u now x)
unassign_row-ClosedWhenDone t u now x h = elim (Bool-cases (assigned_to t u x)) [
  | inl e ↦ rw e h
  | inr e ↦ rw e h
]

departed-WellClosed :
    (now by t u : ℕ) (b : Db) → WellClosed b.tasks → WellClosed (departed now by t u b).tasks
departed-WellClosed now by t u b h =
    subst WellClosed (sym (departed_tasks now by t u b))
      (All-unassign ClosedWhenDone t u now b.tasks (unassign_row-ClosedWhenDone t u now) h)

departed-KeyedTasks :
    (now by t u : ℕ) (b : Db) → KeyedTasks b.tasks → KeyedTasks (departed now by t u b).tasks
departed-KeyedTasks now by t u b k =
    subst KeyedTasks (sym (departed_tasks now by t u b))
      (unassign_rows-KeyedTasks t u now b.tasks k)

update_row-ClosedWhenDone :
    (old new : Task) (v : ℕ)
    → (ClosedWhenDone old → ClosedWhenDone new)
    → ClosedWhenDone old
    → ClosedWhenDone (update_row new v old)
update_row-ClosedWhenDone old new v closing h =
    elim (Bool-cases (old.id == new.id && old.version == v)) [
      | inl e ↦ rw e (closing h)
      | inr e ↦ rw e h
    ]

pub TeamStep-WellClosed :
    {actor : ℕ} {b b' : Db} → TeamStep actor b b' → WellClosed b.tasks → WellClosed b'.tasks
TeamStep-WellClosed (TeamStep.creates t free fresh) h = h
TeamStep-WellClosed (TeamStep.renames t name r is m) h = h
TeamStep-WellClosed (TeamStep.invites t u r new is m gr ne free known) h = h
TeamStep-WellClosed (TeamStep.changes_role t u r old new is was ne out gr) h = h
TeamStep-WellClosed {actor} {b} (TeamStep.removes now t u r old is was ne out) h =
    departed-WellClosed now actor t u b h
TeamStep-WellClosed {actor} {b} (TeamStep.leaves now t r is low) h =
    departed-WellClosed now actor t actor b h
TeamStep-WellClosed (TeamStep.transfers t u r is was ne) h = h
TeamStep-WellClosed {b} (TeamStep.deletes t is) h = All-drop_team ClosedWhenDone t b.tasks h

pub TaskStep-WellClosed :
    {actor : ℕ} {b b' : Db}
    → TaskStep actor b b'
    → KeyedTasks b.tasks
    → WellClosed b.tasks
    → WellClosed b'.tasks
TaskStep-WellClosed (TaskStep.creates t r cs free is new) k h =
    (rw (new.open_status, new.not_closed) refl, h)
TaskStep-WellClosed {b} (TaskStep.revises old new r is role_is rv) k h =
    All-update ClosedWhenDone old new new.version b.tasks k
      (subst (λ i. find_task i b.tasks ≡ some old) (sym rv.identity.0) is)
      (update_row-ClosedWhenDone old new new.version rv.closing) h
TaskStep-WellClosed {b} (TaskStep.deletes old r is role_is m) k h =
    All-drop_task ClosedWhenDone old.id b.tasks h

pub TeamStep-KeyedTasks :
    {actor : ℕ} {b b' : Db} → TeamStep actor b b' → KeyedTasks b.tasks → KeyedTasks b'.tasks
TeamStep-KeyedTasks (TeamStep.creates t free fresh) k = k
TeamStep-KeyedTasks (TeamStep.renames t name r is m) k = k
TeamStep-KeyedTasks (TeamStep.invites t u r new is m gr ne free known) k = k
TeamStep-KeyedTasks (TeamStep.changes_role t u r old new is was ne out gr) k = k
TeamStep-KeyedTasks {actor} {b} (TeamStep.removes now t u r old is was ne out) k =
    departed-KeyedTasks now actor t u b k
TeamStep-KeyedTasks {actor} {b} (TeamStep.leaves now t r is low) k =
    departed-KeyedTasks now actor t actor b k
TeamStep-KeyedTasks (TeamStep.transfers t u r is was ne) k = k
TeamStep-KeyedTasks {b} (TeamStep.deletes t is) k = drop_team_tasks-KeyedTasks t b.tasks k

pub TaskStep-KeyedTasks :
    {actor : ℕ} {b b' : Db} → TaskStep actor b b' → KeyedTasks b.tasks → KeyedTasks b'.tasks
TaskStep-KeyedTasks (TaskStep.creates t r cs free is new) k = (free, k)
TaskStep-KeyedTasks {b} (TaskStep.revises old new r is role_is rv) k =
    update_rows-KeyedTasks new new.version b.tasks k
TaskStep-KeyedTasks {b} (TaskStep.deletes old r is role_is m) k =
    drop_task-KeyedTasks old.id b.tasks k
