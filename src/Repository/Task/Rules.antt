-- ===== src/Repository/Task/Rules.antt =====
-- The rules of the task repository: what each method reads, or leaves behind.
use mathlib.Core.Path.{subst, sym}
use task_management.Base.{
  ℕ, ◌+◌, Bool, false, Option, none, some, ◌∷◌, ◌≡◌, refl, ◌&&◌, ◌==◌, is_some, inl, inr,
  Bool-cases, arith, List, [],
}
use task_management.Domain.Errors.{ok}
use task_management.Domain.Task.{Task, TaskChanges, HistoryAction}
use task_management.Database.Tables.{Db, find_user, find_team, find_task}
use task_management.Database.Runs.{Runs, exec_runs, query_runs, chain}
use task_management.Repository.Task.{
  record_unassigned, unassign_rows, count_assigned, found_task, references, has_version,
  update_rows, push_history, without_task,
}
use task_management.Repository.Task

pub find_task-id : (id : ℕ) (xs : List Task) {t : Task} → find_task id xs ≡ some t → t.id ≡ id
find_task-id id [] h = cc
find_task-id id (x ∷ xs) {t} h = elim (Bool-cases (x.id == id)) [
  | inl e ↦ ground arith
  | inr e ↦ find_task-id id xs (rw e at h)
]

found_task-some : (o : Option Task) {t : Task} → found_task o ≡ ok t → o ≡ some t
found_task-some none p = cc
found_task-some (some x) p = cc

found_task-ok :
    (id : ℕ) (xs : List Task) {t : Task}
    → found_task (find_task id xs) ≡ ok t
    → find_task t.id xs ≡ some t
found_task-ok id xs {t} h =
    let e = found_task-some (find_task id xs) h in
    subst (λ i. find_task i xs ≡ some t) (sym (find_task-id id xs e)) e

is_some-none : {A : Type 0} (o : Option A) → is_some o ≡ false → o ≡ none
is_some-none none h = refl
is_some-none (some a) h = cc

module _ {E : Db → Type 0} {Q : Task → Db → Type 0} (b : Db) where
  pub get_by_id_runs :
      (id : ℕ)
      → E b
      → ((t : Task) → find_task id b.tasks ≡ some t → Q t b)
      → Runs b (Task.get_by_id id) E Q
  unfolding Task.get_by_id
  get_by_id_runs id fails h =
      query_runs b _ _ fails (λ t e. h t (found_task-some (find_task id b.tasks) e))

  pub get_by_id_for_update_runs :
      (id : ℕ)
      → E b
      → ((t : Task) → find_task t.id b.tasks ≡ some t → Q t b)
      → Runs b (Task.get_by_id_for_update id) E Q
  unfolding Task.get_by_id_for_update
  get_by_id_for_update_runs id fails h =
      query_runs b _ _ fails (λ t e. h t (found_task-ok id b.tasks e))

  pub update_runs :
      (t : Task) (expected : ℕ)
      → E b
      → Q
          (record t { version = expected + 1 })
          (record b { tasks = update_rows t expected b.tasks })
      → Runs b (Task.update t expected) E Q
  unfolding Task.update
  update_runs t expected fails h =
      exec_runs b _ _ fails (elim (Bool-cases (has_version expected (find_task t.id b.tasks))) [
        | inl e ↦ rw e (elim (Bool-cases (references t.assignee_id b.users)) [
          | inl known ↦ rw known h
          | inr unknown ↦ rw unknown tt
        ])
        | inr e ↦ rw e tt
      ])

module _ {E : Db → Type 0} {Q : Unit {0} → Db → Type 0} (b : Db) where
  pub create_runs :
      (t : Task)
      → E b
      → (find_task t.id b.tasks ≡ none → Q tt (record b { tasks = t ∷ b.tasks }))
      → Runs b (Task.create t) E Q
  unfolding Task.create
  create_runs t fails h =
      exec_runs b _ _ fails (elim (Bool-cases (is_some (find_task t.id b.tasks))) [
        | inl e ↦ rw e tt
        | inr e ↦ rw e (elim (Bool-cases known) [
          | inl k ↦ rw k (h (is_some-none (find_task t.id b.tasks) e))
          | inr k ↦ rw k tt
        ])
      ])
    where
      known : Bool
      known =
          is_some (find_team t.team_id b.teams)
          && is_some (find_user t.created_by b.users)
          && references t.assignee_id b.users

  pub delete_runs : (id : ℕ) → E b → Q tt (without_task id b) → Runs b (Task.delete id) E Q
  unfolding Task.delete
  delete_runs id fails h =
      exec_runs b _ _ fails
        (elim (Bool-cases (is_some (find_task id b.tasks))) [ inl e ↦ rw e h | inr e ↦ rw e tt ])

  pub add_history_runs :
      (task_id changed_by : ℕ) (action : HistoryAction) (cs : TaskChanges) (at : ℕ)
      → E b
      → Q tt (push_history task_id changed_by action cs at b)
      → Runs b (Task.add_history task_id changed_by action cs at) E Q
  unfolding Task.add_history
  add_history_runs task_id changed_by action cs at fails h =
      exec_runs b _ _ fails
        (elim (Bool-cases
          (is_some (find_task task_id b.tasks) && is_some (find_user changed_by b.users))) [
            | inl e ↦ rw e h
            | inr e ↦ rw e tt
          ])

module _ {E : Db → Type 0} {Q : ℕ → Db → Type 0} (b : Db) where
  -- The tables after UnassignUser.
  pub unassign_user_runs :
      (t u by now : ℕ)
      → E b
      → E (record_unassigned b.tasks t u by now b)
      → (let b' = record_unassigned b.tasks t u by now b in
          Q (count_assigned t u b'.tasks) (record b' { tasks = unassign_rows t u now b'.tasks }))
      → Runs b (Task.unassign_user t u by now) E Q
  unfolding Task.unassign_user
  unassign_user_runs t u by now fails fails' h =
      chain (exec_runs b _ _ fails (exec_runs _ _ _ fails' h))
