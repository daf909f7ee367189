-- ===== src/Service/Invariant/Audit.antt =====
-- The audit history against the versions of the tasks.
use mathlib.Core.Path.{subst, sym}
use task_management.Base.{
  ℕ, suc, ◌+◌, Bool, true, false, Option, none, some, List, [], ◌∷◌, ◌≡◌, ◌≢◌, refl, ◌&&◌, arith,
  ◌==◌, if◌then◌else◌, Bool-cases, inl, inr, ap, ◌∙◌,
}
use task_management.Domain.Task.{Task, TaskHistory, HistoryAction, Field, FieldValue}
use task_management.Database.Tables.{Db, find_task, drop_team_tasks, drop_history, in_team}
use task_management.Repository.Team.{drop_member}
use task_management.Repository.Task.{
  record_unassigned, update_row, update_rows, unassign_rows, assigned_to, push_history,
}
use task_management.Repository.Task.Unassign.{OnlyHistory, record_unassigned-OnlyHistory}
use task_management.Service.Team.Owners.{one_if}
use task_management.Service.Team.Spec.{TeamStep, departed}
use task_management.Service.Task.Spec.{TaskStep}
use task_management.Service.Invariant.Rows.{
  KeyedTasks, find_task-update_self, find_task-update_ne, find_task-drop_self, find_task-drop_ne,
}

-- The entries on a task.
abbrev pub entries : ℕ → List TaskHistory → ℕ
entries id [] = 0
entries id (h ∷ hs) = one_if (h.task_id == id) + entries id hs

abbrev pub version_of : Option Task → ℕ
version_of none = 0
version_of (some t) = t.version

-- A task has as many entries as its version says, and a task that is not there has none.
abbrev pub IsAudited : Db → Type 0
IsAudited b = (id : ℕ) → entries id b.history ≡ version_of (find_task id b.tasks)

-- The rows that are unassigned.
abbrev marked : ℕ → ℕ → ℕ → List Task → ℕ
marked t u id [] = 0
marked t u id (x ∷ xs) = one_if (x.id == id && assigned_to t u x) + marked t u id xs

entries-drop_history :
    (gone : ℕ → Bool) (id : ℕ) (hs : List TaskHistory)
    → entries id (drop_history gone hs) ≡ (if gone id then 0 else entries id hs)
entries-drop_history gone id [] = elim (Bool-cases (gone id)) [
  | inl e ↦ rw e refl
  | inr e ↦ rw e refl
]
entries-drop_history gone id (h ∷ hs) = elim (Bool-cases (h.task_id == id)) [
  | inl e ↦ ground (arith, entries-drop_history gone id hs, ap gone (eq_of h.task_id id e))
  | inr e ↦ ground (arith, entries-drop_history gone id hs)
]
  where
    eq_of : (a b : ℕ) → (a == b) ≡ true → a ≡ b
    eq_of a b e = ground arith

module _ (t u by now id : ℕ) where
  abbrev pushed : Task → Db → Db
  pushed x b =
      if assigned_to t u x
      then push_history x.id by HistoryAction.updated
          (record { field = Field.assignee_id; old = FieldValue.user u; new = FieldValue.nothing }
            ∷ [])
          now b
      else b

  entries-pushed :
      (x : Task) (b : Db)
      → entries id (pushed x b).history
        ≡ one_if (x.id == id && assigned_to t u x) + entries id b.history
  entries-pushed x b = elim (Bool-cases (assigned_to t u x)) [
    | inl e ↦ rw e (ground arith)
    | inr e ↦ rw e (ground arith)
  ]

  entries-record_unassigned :
      (ts : List Task) (b : Db)
      → entries id (record_unassigned ts t u by now b).history
        ≡ marked t u id ts + entries id b.history
  entries-record_unassigned [] b = ground arith
  entries-record_unassigned (x ∷ xs) b =
      entries-record_unassigned xs (pushed x b) ∙ ground (arith, entries-pushed x b)

  marked-absent : (ts : List Task) → find_task id ts ≡ none → marked t u id ts ≡ 0
  marked-absent [] h = refl
  marked-absent (x ∷ xs) h = ground (arith, marked-absent xs)

  absent-unassign :
      (ts : List Task) → find_task id ts ≡ none → find_task id (unassign_rows t u now ts) ≡ none
  absent-unassign [] h = refl
  absent-unassign (x ∷ xs) h = ground (arith, absent-unassign xs)

  version_of-unassign :
      (ts : List Task)
      → KeyedTasks ts
      → version_of (find_task id (unassign_rows t u now ts))
        ≡ marked t u id ts + version_of (find_task id ts)
  version_of-unassign [] k = refl
  version_of-unassign (x ∷ xs) k = elim (Bool-cases (x.id == id)) [
    | inl e ↦
        ground (arith, marked-absent xs (subst (λ i. find_task i xs ≡ none) (eq_of x.id id e) k.0))
    | inr e ↦ ground (arith, version_of-unassign xs k.1)
  ]
    where
      eq_of : (a b : ℕ) → (a == b) ≡ true → a ≡ b
      eq_of a b e = ground arith

eq_of_test : (a b : ℕ) → (a == b) ≡ true → a ≡ b
eq_of_test a b e = ground arith

module _ (t id : ℕ) where
  in_team-absent : (ts : List Task) → find_task id ts ≡ none → in_team t id ts ≡ false
  in_team-absent [] h = refl
  in_team-absent (x ∷ xs) h = ground (arith, in_team-absent xs)

  drop_team-absent :
      (ts : List Task) → find_task id ts ≡ none → find_task id (drop_team_tasks t ts) ≡ none
  drop_team-absent [] h = refl
  drop_team-absent (x ∷ xs) h = ground (arith, drop_team-absent xs)

  find_task-drop_team :
      (ts : List Task)
      → KeyedTasks ts
      → find_task id (drop_team_tasks t ts) ≡ (if in_team t id ts then none else find_task id ts)
  find_task-drop_team [] k = refl
  find_task-drop_team (x ∷ xs) k = elim (Bool-cases (x.id == id)) [
    | inl e ↦
        let gone : find_task id xs ≡ none =
          subst (λ i. find_task i xs ≡ none) (eq_of_test x.id id e) k.0 in
        ground (arith, in_team-absent xs gone, drop_team-absent xs gone)
    | inr e ↦ ground (arith, find_task-drop_team xs k.1)
  ]

departed-IsAudited :
    (now by t u : ℕ) (b : Db) → KeyedTasks b.tasks → IsAudited b → IsAudited (departed now by t u b)
departed-IsAudited now by t u b k h id =
    entries-record_unassigned t u by now id b.tasks left
    ∙ ap (λ n. marked t u id b.tasks + n) (h id)
    ∙ sym (version_of-unassign t u by now id b.tasks k)
    ∙ ap (λ ts. version_of (find_task id (unassign_rows t u now ts))) (sym same.tasks)
  where
    left : Db
    left = record b { members = drop_member t u b.members }

    same : OnlyHistory left (record_unassigned b.tasks t u by now left)
    same = record_unassigned-OnlyHistory b.tasks t u by now left

pub TeamStep-IsAudited :
    {actor : ℕ} {b b' : Db} → TeamStep actor b b' → KeyedTasks b.tasks → IsAudited b → IsAudited b'
TeamStep-IsAudited (TeamStep.creates t free fresh) k h = h
TeamStep-IsAudited (TeamStep.renames t name r is m) k h = h
TeamStep-IsAudited (TeamStep.invites t u r new is m gr ne free known) k h = h
TeamStep-IsAudited (TeamStep.changes_role t u r old new is was ne out gr) k h = h
TeamStep-IsAudited {actor} {b} (TeamStep.removes now t u r old is was ne out) k h =
    departed-IsAudited now actor t u b k h
TeamStep-IsAudited {actor} {b} (TeamStep.leaves now t r is low) k h =
    departed-IsAudited now actor t actor b k h
TeamStep-IsAudited (TeamStep.transfers t u r is was ne) k h = h
TeamStep-IsAudited {b} (TeamStep.deletes t is) k h = λ id. ground (
  arith,
  h id,
  entries-drop_history (λ x. in_team t x b.tasks) id b.history,
  find_task-drop_team t id b.tasks k,
)

-- The row that an update replaces is at the next version.
update_row-version :
    (new old : Task)
    → new.id ≡ old.id
    → new.version ≡ old.version
    → (update_row new new.version old).version ≡ suc old.version
update_row-version new old i v = ground arith

revised-entries :
    (old new : Task) (id : ℕ) (ts : List Task) (hs : List TaskHistory)
    → find_task new.id ts ≡ some old
    → new.id ≡ old.id
    → new.version ≡ old.version
    → entries id hs ≡ version_of (find_task id ts)
    → one_if (new.id == id) + entries id hs
      ≡ version_of (find_task id (update_rows new new.version ts))
revised-entries old new id ts hs is i v h = elim (Bool-cases (new.id == id)) [
  | inl e ↦
      subst
        (λ j.
          entries j hs ≡ version_of (find_task j ts)
          → one_if (new.id == j) + entries j hs
            ≡ version_of (find_task j (update_rows new new.version ts)))
        (eq_of_test new.id id e)
        (λ g. ground (
          arith,
          is,
          g,
          ap version_of is,
          ap version_of (find_task-update_self new new.version old ts is),
          update_row-version new old i v,
        ))
        h
  | inr e ↦ ground (arith, h, find_task-update_ne new new.version id ts (ne_of_test new.id id e))
]
  where
    ne_of_test : (a b : ℕ) → (a == b) ≡ false → b ≢ a
    ne_of_test a b e = ground arith

created-entries :
    (t : Task) (id : ℕ) (ts : List Task) (hs : List TaskHistory)
    → find_task t.id ts ≡ none
    → t.version ≡ 1
    → entries id hs ≡ version_of (find_task id ts)
    → one_if (t.id == id) + entries id hs ≡ version_of (find_task id (t ∷ ts))
created-entries t id ts hs free first h = elim (Bool-cases (t.id == id)) [
  | inl e ↦
      (let none_yet : entries id hs ≡ 0 =
          h ∙ ap version_of (subst (λ i. find_task i ts ≡ none) (eq_of_test t.id id e) free) in
        rw (e, none_yet, first) refl)
  | inr e ↦ rw (e, h) (ground arith)
]

pub TaskStep-IsAudited : {actor : ℕ} {b b' : Db} → TaskStep actor b b' → IsAudited b → IsAudited b'
TaskStep-IsAudited {b = b} (TaskStep.creates t r cs free is new) h =
    λ id. created-entries t id b.tasks b.history free new.first_version (h id)
TaskStep-IsAudited {b = b} (TaskStep.revises old new r is role_is rv) h = λ id.
    revised-entries old new id b.tasks b.history
      (subst (λ i. find_task i b.tasks ≡ some old) (sym rv.identity.0) is) rv.identity.0 rv.origin.1
      (h id)
TaskStep-IsAudited {b = b} (TaskStep.deletes old r is role_is m) h = λ id. ground (
  arith,
  h id,
  entries-drop_history (λ x. x == old.id) id b.history,
  find_task-drop_self old.id b.tasks,
  find_task-drop_ne old.id id b.tasks,
)
