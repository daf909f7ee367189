-- ===== src/Service/Invariant/Staffing.antt =====
-- No task is assigned to someone outside its team.
use mathlib.Core.Path.{subst, sym}
use task_management.Base.{
  ℕ, false, Option, none, some, List, [], ◌∷◌, ◌≡◌, ◌≢◌, refl, ◌&&◌, arith, ◌==◌, is_some, inl, inr,
  Option-cases, Bool-cases, All,
}
use task_management.Domain.Team.{Role, owner, admin, TeamMember}
use task_management.Domain.Task.{Task}
use task_management.Database.Tables.{Db, role_of, find_task, drop_team_tasks, drop_team_members}
use task_management.Repository.Team.{set_role, drop_member}
use task_management.Repository.Task.{record_unassigned, update_row, unassign_row, unassign_rows}
use task_management.Repository.Task.Unassign.{OnlyHistory, record_unassigned-OnlyHistory}
use task_management.Service.Team.Spec.{TeamStep, departed}
use task_management.Service.Task.Spec.{IsStaffed, IsRevision, TaskStep}
use task_management.Service.Invariant.Rows.{KeyedTasks, All-update, All-drop_task}

abbrev pub Staffed : List TeamMember → Task → Type 0
Staffed ms t = IsStaffed ms t.team_id t.assignee_id

abbrev pub AllStaffed : List TeamMember → List Task → Type 0
AllStaffed ms = All (Staffed ms)

is_member-set_role :
    (t u i j : ℕ) (r : Role) (ms : List TeamMember)
    → is_some (role_of i j (set_role t u r ms)) ≡ is_some (role_of i j ms)
is_member-set_role t u i j r [] = refl
is_member-set_role t u i j r (m ∷ ms) = ground (arith, is_member-set_role t u i j r ms)

role_of-drop_member_ne :
    (t u i j : ℕ) (ms : List TeamMember)
    → ((i == t) && (j == u)) ≡ false
    → role_of i j (drop_member t u ms) ≡ role_of i j ms
role_of-drop_member_ne t u i j [] h = refl
role_of-drop_member_ne t u i j (m ∷ ms) h = ground (arith, role_of-drop_member_ne t u i j ms h)

role_of-drop_team_ne :
    (t i j : ℕ) (ms : List TeamMember)
    → i ≢ t
    → role_of i j (drop_team_members t ms) ≡ role_of i j ms
role_of-drop_team_ne t i j [] h = refl
role_of-drop_team_ne t i j (m ∷ ms) h = ground (arith, role_of-drop_team_ne t i j ms h)

-- One more member takes nobody's membership away.
pub AllStaffed-join :
    (m : TeamMember) (ms : List TeamMember) (ts : List Task)
    → AllStaffed ms ts
    → AllStaffed (m ∷ ms) ts
AllStaffed-join m ms [] h = tt
AllStaffed-join m ms (t ∷ ts) h = ground (arith, AllStaffed-join m ms ts h.1)

pub AllStaffed-set_role :
    (t u : ℕ) (r : Role) (ms : List TeamMember) (ts : List Task)
    → AllStaffed ms ts
    → AllStaffed (set_role t u r ms) ts
AllStaffed-set_role t u r ms [] h = tt
AllStaffed-set_role t u r ms (x ∷ ts) h =
    (keep x.assignee_id h.0, AllStaffed-set_role t u r ms ts h.1)
  where
    keep : (a : Option ℕ) → IsStaffed ms x.team_id a → IsStaffed (set_role t u r ms) x.team_id a
    keep none s = tt
    keep (some j) s = rw (is_member-set_role t u x.team_id j r ms) s

depart-Staffed :
    (t u now : ℕ) (ms : List TeamMember) (x : Task)
    → Staffed ms x
    → Staffed (drop_member t u ms) (unassign_row t u now x)
depart-Staffed t u now ms x h = elim (Option-cases x.assignee_id) [
  | inl e ↦ ground arith
  | inr (a, e) ↦ ground (arith, role_of-drop_member_ne t u x.team_id a ms)
]

drop_team-Staffed :
    (t : ℕ) (ms : List TeamMember) (x : Task)
    → x.team_id ≢ t
    → Staffed ms x
    → Staffed (drop_team_members t ms) x
drop_team-Staffed t ms x ne h = elim (Option-cases x.assignee_id) [
  | inl e ↦ ground arith
  | inr (a, e) ↦ ground (arith, role_of-drop_team_ne t x.team_id a ms ne)
]

-- A member leaves, and his tasks of the team are unassigned.
pub AllStaffed-depart :
    (t u now : ℕ) (ms : List TeamMember) (ts : List Task)
    → AllStaffed ms ts
    → AllStaffed (drop_member t u ms) (unassign_rows t u now ts)
AllStaffed-depart t u now ms [] h = tt
AllStaffed-depart t u now ms (x ∷ ts) h =
    (depart-Staffed t u now ms x h.0, AllStaffed-depart t u now ms ts h.1)

pub AllStaffed-drop_team :
    (t : ℕ) (ms : List TeamMember) (ts : List Task)
    → AllStaffed ms ts
    → AllStaffed (drop_team_members t ms) (drop_team_tasks t ts)
AllStaffed-drop_team t ms [] h = tt
AllStaffed-drop_team t ms (x ∷ ts) h =
    ground (arith, drop_team-Staffed t ms x, AllStaffed-drop_team t ms ts h.1)

pub departed-AllStaffed :
    (now by t u : ℕ) (b : Db)
    → AllStaffed b.members b.tasks
    → AllStaffed (departed now by t u b).members (departed now by t u b).tasks
departed-AllStaffed now by t u b h =
    rw (same.members, same.tasks) (AllStaffed-depart t u now b.members b.tasks h)
  where
    left : Db
    left = record b { members = drop_member t u b.members }

    same : OnlyHistory left (record_unassigned b.tasks t u by now left)
    same = record_unassigned-OnlyHistory b.tasks t u by now left

-- The assignee that a revision gives is staffed where the old one was.
revised-Staffed :
    {r : Role} {actor : ℕ} (ms : List TeamMember) (old new : Task)
    → IsRevision r actor ms old new
    → Staffed ms old
    → IsStaffed ms old.team_id new.assignee_id
revised-Staffed ms old new rv h = elim rv.assignment [
  | inl same ↦ rw same h
  | inr placed ↦ placed.1
]

update_row-Staffed :
    (ms : List TeamMember) (old new : Task) (v : ℕ)
    → Staffed ms old
    → IsStaffed ms old.team_id new.assignee_id
    → Staffed ms (update_row new v old)
update_row-Staffed ms old new v h h' = elim (Bool-cases (old.id == new.id && old.version == v)) [
  | inl e ↦ rw e h'
  | inr e ↦ rw e h
]

-- The memberships behind the assignments survive each step of the team service.
pub TeamStep-AllStaffed :
    {actor : ℕ} {b b' : Db}
    → TeamStep actor b b'
    → AllStaffed b.members b.tasks
    → AllStaffed b'.members b'.tasks
TeamStep-AllStaffed {b} (TeamStep.creates t free fresh) h = AllStaffed-join _ b.members b.tasks h
TeamStep-AllStaffed (TeamStep.renames t name r is m) h = h
TeamStep-AllStaffed {b} (TeamStep.invites t u r new is m gr ne free known) h =
    AllStaffed-join _ b.members b.tasks h
TeamStep-AllStaffed {b} (TeamStep.changes_role t u r old new is was ne out gr) h =
    AllStaffed-set_role t u new b.members b.tasks h
TeamStep-AllStaffed {actor} {b} (TeamStep.removes now t u r old is was ne out) h =
    departed-AllStaffed now actor t u b h
TeamStep-AllStaffed {actor} {b} (TeamStep.leaves now t r is low) h =
    departed-AllStaffed now actor t actor b h
TeamStep-AllStaffed {actor} {b} (TeamStep.transfers t u r is was ne) h =
    AllStaffed-set_role t actor admin _ b.tasks (AllStaffed-set_role t u owner b.members b.tasks h)
TeamStep-AllStaffed {b} (TeamStep.deletes t is) h = AllStaffed-drop_team t b.members b.tasks h

-- So they do each step of the task service.
pub TaskStep-AllStaffed :
    {actor : ℕ} {b b' : Db}
    → TaskStep actor b b'
    → KeyedTasks b.tasks
    → AllStaffed b.members b.tasks
    → AllStaffed b'.members b'.tasks
TaskStep-AllStaffed (TaskStep.creates t r cs free is new) k h = (new.staffed, h)
TaskStep-AllStaffed {b} (TaskStep.revises old new r is role_is rv) k h =
    All-update (Staffed b.members) old new new.version b.tasks k
      (subst (λ i. find_task i b.tasks ≡ some old) (sym rv.identity.0) is)
      (λ s.
        update_row-Staffed b.members old new new.version s (revised-Staffed b.members old new rv s))
      h
TaskStep-AllStaffed {b} (TaskStep.deletes old r is role_is m) k h =
    All-drop_task (Staffed b.members) old.id b.tasks h
