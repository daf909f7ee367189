-- ===== src/Service/Invariant/Rows.antt =====
-- The updates of the task table, row by row.
use mathlib.Core.Path.{subst, sym}
use task_management.Base.{
  ℕ, true, false, Option, none, some, List, [], ◌∷◌, ◌≡◌, ◌≢◌, refl, arith, ◌==◌, All, Bool-cases,
  inl, inr,
}
use task_management.Domain.Task.{Task}
use task_management.Database.Tables.{find_task, drop_task, drop_team_tasks}
use task_management.Repository.Task.{update_row, update_rows, unassign_row, unassign_rows}

-- The primary key.
abbrev pub KeyedTasks : List Task → Type 0
KeyedTasks [] = Unit
KeyedTasks (t ∷ ts) = (find_task t.id ts ≡ none) × KeyedTasks ts

module _ (new : Task) (v : ℕ) where
  pub id-update_row : (t : Task) → (update_row new v t).id ≡ t.id
  id-update_row t = ground arith

  pub find_task-update_none :
      (id : ℕ) (ts : List Task)
      → find_task id ts ≡ none
      → find_task id (update_rows new v ts) ≡ none
  find_task-update_none id [] h = refl
  find_task-update_none id (t ∷ ts) h = ground (arith, id-update_row t, find_task-update_none id ts)

  pub update_rows-KeyedTasks : (ts : List Task) → KeyedTasks ts → KeyedTasks (update_rows new v ts)
  update_rows-KeyedTasks [] k = tt
  update_rows-KeyedTasks (t ∷ ts) k =
      ground
        (arith, id-update_row t, find_task-update_none t.id ts k.0, update_rows-KeyedTasks ts k.1)

  pub update_rows-absent : (ts : List Task) → find_task new.id ts ≡ none → update_rows new v ts ≡ ts
  update_rows-absent [] h = refl
  update_rows-absent (t ∷ ts) h = ground (arith, update_rows-absent ts)

  -- The row that is there becomes the updated one, and no other row changes.
  pub find_task-update_self :
      (old : Task) (ts : List Task)
      → find_task new.id ts ≡ some old
      → find_task new.id (update_rows new v ts) ≡ some (update_row new v old)
  find_task-update_self old [] h = cc
  find_task-update_self old (t ∷ ts) h =
      ground (arith, id-update_row t, find_task-update_self old ts)

  pub find_task-update_ne :
      (id : ℕ) (ts : List Task)
      → id ≢ new.id
      → find_task id (update_rows new v ts) ≡ find_task id ts
  find_task-update_ne id [] h = refl
  find_task-update_ne id (t ∷ ts) h = ground (arith, find_task-update_ne id ts h)

module _ (team u now : ℕ) where
  pub id-unassign_row : (t : Task) → (unassign_row team u now t).id ≡ t.id
  id-unassign_row t = ground arith

  pub find_task-unassign_none :
      (id : ℕ) (ts : List Task)
      → find_task id ts ≡ none
      → find_task id (unassign_rows team u now ts) ≡ none
  find_task-unassign_none id [] h = refl
  find_task-unassign_none id (t ∷ ts) h =
      ground (arith, id-unassign_row t, find_task-unassign_none id ts)

  pub unassign_rows-KeyedTasks :
      (ts : List Task) → KeyedTasks ts → KeyedTasks (unassign_rows team u now ts)
  unassign_rows-KeyedTasks [] k = tt
  unassign_rows-KeyedTasks (t ∷ ts) k = ground (
    arith,
    id-unassign_row t,
    find_task-unassign_none t.id ts k.0,
    unassign_rows-KeyedTasks ts k.1,
  )

module _ (team : ℕ) where
  pub find_task-drop_team_none :
      (id : ℕ) (ts : List Task)
      → find_task id ts ≡ none
      → find_task id (drop_team_tasks team ts) ≡ none
  find_task-drop_team_none id [] h = refl
  find_task-drop_team_none id (t ∷ ts) h = ground (arith, find_task-drop_team_none id ts)

  pub drop_team_tasks-KeyedTasks :
      (ts : List Task) → KeyedTasks ts → KeyedTasks (drop_team_tasks team ts)
  drop_team_tasks-KeyedTasks [] k = tt
  drop_team_tasks-KeyedTasks (t ∷ ts) k =
      ground (arith, find_task-drop_team_none t.id ts k.0, drop_team_tasks-KeyedTasks ts k.1)

module _ (id : ℕ) where
  pub find_task-drop_none :
      (i : ℕ) (ts : List Task) → find_task i ts ≡ none → find_task i (drop_task id ts) ≡ none
  find_task-drop_none i [] h = refl
  find_task-drop_none i (t ∷ ts) h = ground (arith, find_task-drop_none i ts)

  pub drop_task-KeyedTasks : (ts : List Task) → KeyedTasks ts → KeyedTasks (drop_task id ts)
  drop_task-KeyedTasks [] k = tt
  drop_task-KeyedTasks (t ∷ ts) k =
      ground (arith, find_task-drop_none t.id ts k.0, drop_task-KeyedTasks ts k.1)

  pub find_task-drop_self : (ts : List Task) → find_task id (drop_task id ts) ≡ none
  find_task-drop_self [] = refl
  find_task-drop_self (t ∷ ts) = ground (arith, find_task-drop_self ts)

  pub find_task-drop_ne :
      (i : ℕ) (ts : List Task) → i ≢ id → find_task i (drop_task id ts) ≡ find_task i ts
  find_task-drop_ne i [] h = refl
  find_task-drop_ne i (t ∷ ts) h = ground (arith, find_task-drop_ne i ts h)

some_eq : (x y : Task) → some x ≡ some y → x ≡ y
some_eq x y h = cc

head_found :
    (id : ℕ) (x old : Task) (ts : List Task)
    → (x.id == id) ≡ true
    → find_task id (x ∷ ts) ≡ some old
    → x ≡ old
head_found id x old ts e is = some_eq x old (rw e at is)

tail_found :
    (id : ℕ) (x : Task) (o : Option Task) (ts : List Task)
    → (x.id == id) ≡ false
    → find_task id (x ∷ ts) ≡ o
    → find_task id ts ≡ o
tail_found id x o ts e is = rw e at is

eq_of_test : (a b : ℕ) → (a == b) ≡ true → a ≡ b
eq_of_test a b h = ground arith

update_row-other :
    (new : Task) (v : ℕ) (x : Task) → (x.id == new.id) ≡ false → update_row new v x ≡ x
update_row-other new v x e = ground arith

-- What holds of every row still does, if it does of the one row that is updated.
pub All-update :
    (P : Task → Type 0) (old new : Task) (v : ℕ) (ts : List Task)
    → KeyedTasks ts
    → find_task new.id ts ≡ some old
    → (P old → P (update_row new v old))
    → All P ts
    → All P (update_rows new v ts)
All-update P old new v [] k is s h = tt
All-update P old new v (x ∷ ts) k is s h = elim (Bool-cases (x.id == new.id)) [
  | inl e ↦ (
    subst (λ y. P y → P (update_row new v y)) (sym (head_found new.id x old ts e is)) s h.0,
    subst (All P)
        (sym (
          update_rows-absent new v ts
            (subst (λ i. find_task i ts ≡ none) (eq_of_test x.id new.id e) k.0)))
        h.1,
  )
  | inr e ↦ (
    subst P (sym (update_row-other new v x e)) h.0,
    All-update P old new v ts k.1 (tail_found new.id x (some old) ts e is) s h.1,
  )
]

module _ (P : Task → Type 0) where
  pub All-drop_task : (id : ℕ) (ts : List Task) → All P ts → All P (drop_task id ts)
  All-drop_task id [] h = tt
  All-drop_task id (x ∷ ts) h = elim (Bool-cases (x.id == id)) [
    | inl e ↦ rw e (All-drop_task id ts h.1)
    | inr e ↦ rw e (h.0, All-drop_task id ts h.1)
  ]

  pub All-drop_team : (t : ℕ) (ts : List Task) → All P ts → All P (drop_team_tasks t ts)
  All-drop_team t [] h = tt
  All-drop_team t (x ∷ ts) h = elim (Bool-cases (x.team_id == t)) [
    | inl e ↦ rw e (All-drop_team t ts h.1)
    | inr e ↦ rw e (h.0, All-drop_team t ts h.1)
  ]

  pub All-unassign :
      (t u now : ℕ) (ts : List Task)
      → ((x : Task) → P x → P (unassign_row t u now x))
      → All P ts
      → All P (unassign_rows t u now ts)
  All-unassign t u now [] s h = tt
  All-unassign t u now (x ∷ ts) s h = (s x h.0, All-unassign t u now ts s h.1)
