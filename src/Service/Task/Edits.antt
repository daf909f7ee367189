-- ===== src/Service/Task/Edits.antt =====
-- What each field of applyUpdate may come to: the rule of a field leaves the task with one field
-- replaced and the change recorded, under the permission that the field wants.
use task_management.Base.{
  ℕ, String, Bool, true, false, Option, none, some, [], ◌≡◌, refl, ◌⊎◌, inl, inr, if◌then◌else◌,
  str_eq, arith, Bool-cases,
}
use task_management.Domain.Results.{Gives, gives, gives-bind, gives-any}
use task_management.Domain.Task.{
  Task, TaskStatus, status_eq, done, TaskPriority, priority_eq, UpdateTaskRequest, Nullable,
  omitted, null, value, TaskChanges,
}
use task_management.Domain.Text.{trim_space}
use task_management.Service.Rbac.{TaskPermissions}
use task_management.Service.Task.Update.{
  now, same_time, Edit, edit_title, edit_description, edit_priority, edit_due_at, edit_status,
  edit_fields, close_or_reopen, normalize_due_at, permitted, move_due_at,
}
use task_management.Service.Task.Diff.{
  record_title, record_description, record_priority, record_due_at, record_status, record_closed_at,
  record_title_same, record_description_same, record_priority_same, record_due_at_same,
  record_status_same, record_closed_at_same,
}

-- Changed under the permission, or as before.
abbrev pub Allowed : {A : Type 0} → Bool → A → A → Type 0
Allowed p old new = (p ≡ true) ⊎ (new ≡ old)

gives-permitted :
    (p : Bool) (text : String) (e : Edit) (Q : Edit → Type 0)
    → (p ≡ true → Q e)
    → Gives (permitted p text e) Q
gives-permitted true text e Q h = gives e (h refl)
gives-permitted false text e Q h = record { at = tt }

module _ (p : TaskPermissions) (t : Task) (cs : TaskChanges) (Q : Edit → Type 0) where
  edit_title-gives :
      (req : Option String)
      → ((a : String)
          → Allowed p.edit_content t.title a
          → Q (record t { title = a }, record_title t.title a cs))
      → Gives (edit_title p req (t, cs)) Q
  unfolding edit_title
  edit_title-gives none h = gives _ (rw (record_title_same t.title cs) at (h t.title (inr refl)))
  edit_title-gives (some raw) h = elim (Bool-cases (str_eq (trim_space raw) t.title)) [
    | inl e ↦ rw e (gives _ (rw (record_title_same t.title cs) at (h t.title (inr refl))))
    | inr e ↦
        rw e (gives-permitted p.edit_content _ _ Q (λ may. rw e at (h (trim_space raw) (inl may))))
  ]

  edit_description-gives :
      (req : Option String)
      → ((a : String)
          → Allowed p.edit_content t.description a
          → Q (record t { description = a }, record_description t.description a cs))
      → Gives (edit_description p req (t, cs)) Q
  unfolding edit_description
  edit_description-gives none h =
      gives _ (rw (record_description_same t.description cs) at (h t.description (inr refl)))
  edit_description-gives (some raw) h = elim (Bool-cases (str_eq (trim_space raw) t.description)) [
    | inl e ↦
        rw e
          (gives _ (rw (record_description_same t.description cs) at (h t.description (inr refl))))
    | inr e ↦
        rw e (gives-permitted p.edit_content _ _ Q (λ may. rw e at (h (trim_space raw) (inl may))))
  ]

  edit_priority-gives :
      (req : Option TaskPriority)
      → ((a : TaskPriority)
          → Allowed p.edit_content t.priority a
          → Q (record t { priority = a }, record_priority t.priority a cs))
      → Gives (edit_priority p req (t, cs)) Q
  unfolding edit_priority
  edit_priority-gives none h =
      gives _ (rw (record_priority_same t.priority cs) at (h t.priority (inr refl)))
  edit_priority-gives (some next) h = elim (Bool-cases (priority_eq next t.priority)) [
    | inl e ↦ rw e (gives _ (rw (record_priority_same t.priority cs) at (h t.priority (inr refl))))
    | inr e ↦ rw e (gives-permitted p.edit_content _ _ Q (λ may. rw e at (h next (inl may))))
  ]

  move_due_at-gives :
      (next : Option ℕ)
      → ((a : Option ℕ)
          → Allowed p.edit_content t.due_at a
          → Q (record t { due_at = a }, record_due_at t.due_at a cs))
      → Gives (move_due_at p next (t, cs)) Q
  move_due_at-gives next h = elim (Bool-cases (same_time t.due_at next)) [
    | inl e ↦ rw e (gives _ (rw (record_due_at_same t.due_at cs) at (h t.due_at (inr refl))))
    | inr e ↦ rw e (gives-permitted p.edit_content _ _ Q (λ may. rw e at (h next (inl may))))
  ]

  edit_due_at-gives :
      (req : Nullable ℕ)
      → ((a : Option ℕ)
          → Allowed p.edit_content t.due_at a
          → Q (record t { due_at = a }, record_due_at t.due_at a cs))
      → Gives (edit_due_at p req (t, cs)) Q
  unfolding edit_due_at
  edit_due_at-gives omitted h =
      gives _ (rw (record_due_at_same t.due_at cs) at (h t.due_at (inr refl)))
  edit_due_at-gives null h =
      gives-bind (gives-any (normalize_due_at none) (λ next. move_due_at-gives next h))
  edit_due_at-gives (value v) h =
      gives-bind (gives-any (normalize_due_at (some v)) (λ next. move_due_at-gives next h))

-- What becomes of the closing time when the status becomes `st`.
abbrev pub closed_after : ℕ → TaskStatus → Option ℕ → Option ℕ
closed_after clock st none = if status_eq st done then some (now clock) else none
closed_after clock st (some at) = if status_eq st done then some at else none

abbrev pub Moved : ℕ → Bool → Task → TaskStatus → Option ℕ → Type 0
Moved clock may t st cl =
    ((may ≡ true) × (cl ≡ closed_after clock st t.closed_at))
    ⊎ ((st ≡ t.status) × (cl ≡ t.closed_at))

module _ (clock : ℕ) (t : Task) where
  close_or_reopen_lem :
      (st : TaskStatus) (cs : TaskChanges)
      → close_or_reopen clock (record t { status = st }, cs) ≡ (
        record t { status = st; closed_at = closed_after clock st t.closed_at },
        record_closed_at t.closed_at (closed_after clock st t.closed_at) cs,
      )
  unfolding close_or_reopen
  close_or_reopen_lem st cs = ground arith

module _ (clock : ℕ) (p : TaskPermissions) (t : Task) (cs : TaskChanges) (Q : Edit → Type 0) where
  unmoved :
      ((st : TaskStatus) (cl : Option ℕ)
        → Moved clock p.change_status t st cl
        → Q (
          record t { status = st; closed_at = cl },
          record_closed_at t.closed_at cl (record_status t.status st cs),
        ))
      → Q (t, cs)
  unmoved h = rw (record_status_same t.status cs) at (
      rw (record_closed_at_same t.closed_at (record_status t.status t.status cs)) at
        (h t.status t.closed_at (inr (refl, refl))))

  edit_status-gives :
      (req : Option TaskStatus)
      → ((st : TaskStatus) (cl : Option ℕ)
          → Moved clock p.change_status t st cl
          → Q (
            record t { status = st; closed_at = cl },
            record_closed_at t.closed_at cl (record_status t.status st cs),
          ))
      → Gives (edit_status clock p req (t, cs)) Q
  unfolding edit_status
  edit_status-gives none h = gives _ (unmoved h)
  edit_status-gives (some next) h = elim (Bool-cases (status_eq next t.status)) [
    | inl e ↦ rw e (gives _ (unmoved h))
    | inr e ↦ rw e (
        gives-permitted p.change_status _ _ Q λ may.
          rw (close_or_reopen_lem clock t next _)
            (rw e at (h next (closed_after clock next t.closed_at) (inl (may, refl)))))
  ]

-- The fields in turn: each is kept, or replaced under its permission, and the record of changes
-- holds what differs.
pub edit_fields-gives :
    (clock : ℕ) (p : TaskPermissions) (req : UpdateTaskRequest) (t : Task) (Q : Edit → Type 0)
    → ((a d : String) (pr : TaskPriority) (du : Option ℕ) (st : TaskStatus) (cl : Option ℕ)
        → Allowed p.edit_content t.title a
        → Allowed p.edit_content t.description d
        → Allowed p.edit_content t.priority pr
        → Allowed p.edit_content t.due_at du
        → Moved clock p.change_status t st cl
        → Q (
          record t {
            title = a;
            description = d;
            status = st;
            priority = pr;
            due_at = du;
            closed_at = cl;
          },
          record_closed_at t.closed_at cl (
              record_status t.status st (
                record_due_at t.due_at du (
                  record_priority t.priority pr
                    (record_description t.description d (record_title t.title a []))))),
        ))
    → Gives (edit_fields clock p req (t, [])) Q
unfolding edit_fields
edit_fields-gives clock p req t Q h = gives-bind (
    edit_title-gives p t [] _ req.title λ a ha. gives-bind (
      edit_description-gives p _ _ _ req.description λ d hd. gives-bind (
        edit_priority-gives p _ _ _ req.priority λ pr hp. gives-bind (
          edit_due_at-gives p _ _ _ req.due_at λ du hu.
            edit_status-gives clock p _ _ Q req.status
              λ st cl hs. h a d pr du st cl ha hd hp hu hs))))
