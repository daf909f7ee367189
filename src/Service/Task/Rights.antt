-- ===== src/Service/Task/Rights.antt =====
-- The rule of applyUpdate: what may come of it, under the permissions of the actor.
use task_management.Base.{
  ℕ, [], List, ◌∙◌, String, Bool, true, none, some, Option, [], ◌≡◌, refl, ◌⊎◌, inl, inr, arith,
  Bool-cases, is_some,
}
use task_management.Domain.Errors.{ok}
use task_management.Domain.Team.{Role, TeamMember}
use task_management.Domain.Task.{
  Task, TaskPriority, TaskChanges, status_eq, done, is_assignee, UpdateTaskRequest, Field,
  user_value,
}
use task_management.Database.Tables.{Db, role_of}
use task_management.Database.Runs.{Runs, returns, lift_runs, lift_gives_runs, chain}
use task_management.Repository.Team.Rules.{is_member_runs}
use task_management.Service.Rbac.{TaskPermissions, any, task_permissions_for}
use task_management.Service.Task.Update.{
  Edit, changed, apply_update, edit_assignee, require_member, same_assignee, next_assignee,
  require_next, may_reassign, member_required, reassign, require_any,
}
use task_management.Service.Task.Diff.{
  diff, record_title, record_description, record_priority, record_due_at, record_status,
  record_closed_at, record_assignee, record_assignee_same,
}
use task_management.Service.Task.Spec.{MayEdit, IsStaffed, ClosedWhenDone, IsRevision}
use task_management.Service.Task.Edits.{Allowed, edit_fields-gives, Moved}

may_edit :
    (r : Role) (actor : ℕ) (t : Task)
    → (task_permissions_for r actor t).edit_content ≡ true
    → MayEdit r actor t
unfolding task_permissions_for
may_edit r actor t h = ground arith

may_reassign_edit :
    (r : Role) (actor : ℕ) (t : Task)
    → (task_permissions_for r actor t).reassign ≡ true
    → MayEdit r actor t
unfolding task_permissions_for
may_reassign_edit r actor t h = ground arith

pub may_delete_edit :
    (r : Role) (actor : ℕ) (t : Task)
    → (task_permissions_for r actor t).delete ≡ true
    → MayEdit r actor t
unfolding task_permissions_for
may_delete_edit r actor t h = ground arith

any_entitled :
    (r : Role) (actor : ℕ) (t : Task)
    → any (task_permissions_for r actor t) ≡ true
    → MayEdit r actor t ⊎ (is_assignee t actor ≡ true)
unfolding task_permissions_for
any_entitled r actor t h = ground arith

closed_after-closed :
    (clock : ℕ) (may : Bool) (t : Task) {st : _} {cl : Option ℕ}
    → Moved clock may t st cl
    → ClosedWhenDone t
    → is_some cl ≡ status_eq st done
closed_after-closed clock may t h c = ground arith

member_required-ok : (c : Bool) → member_required c ≡ ok tt → c ≡ true
member_required-ok c h = ground arith

may_reassign-ok : (c : Bool) → may_reassign c ≡ ok tt → c ≡ true
may_reassign-ok c h = ground arith

require_any-ok : (c : _) → require_any c ≡ ok tt → any c ≡ true
require_any-ok c h = ground arith

module _ {E : Db → Type 0} {Q : Unit {0} → Db → Type 0} (b : Db) (team : ℕ) where
  pub require_member_runs :
      (u : ℕ)
      → E b
      → (is_some (role_of team u b.members) ≡ true → Q tt b)
      → Runs b (require_member team u) E Q
  unfolding require_member
  require_member_runs u fails h = chain (
      is_member_runs b team u fails
        λ c e. lift_runs b _ fails λ _ there. h (e ∙ member_required-ok c there))

  require_next_runs :
      (next : Option ℕ)
      → E b
      → (IsStaffed b.members team next → Q tt b)
      → Runs b (require_next team next) E Q
  require_next_runs none fails h = returns b tt (h tt)
  require_next_runs (some u) fails h = require_member_runs u fails h

-- The assignee is kept, or replaced under the permission by nobody or a member of the team.
Reassigned : Bool → List TeamMember → Task → Option ℕ → Type 0
Reassigned may ms t next = (next ≡ t.assignee_id) ⊎ ((may ≡ true) × IsStaffed ms t.team_id next)

module _ {E : Db → Type 0} {Q : Edit → Db → Type 0} (b : Db) where
  reassign_runs :
      (may : Bool) (next : Option ℕ) (e : Edit)
      → E b
      → (may ≡ true
          → IsStaffed b.members e.0.team_id next
          → Q
              (
                record e.0 { assignee_id = next },
                changed e.1 Field.assignee_id (user_value e.0.assignee_id) (user_value next),
              )
              b)
      → Runs b (reassign may next e) E Q
  reassign_runs may next (t, cs) fails h = chain (
      lift_runs b _ fails λ _ allowed. chain (
        require_next_runs b t.team_id next fails
          λ staffed. returns b _ (h (may_reassign-ok may allowed) staffed)))

  edit_assignee_runs :
      (p : TaskPermissions) (req : Option ℕ) (e : Edit)
      → E b
      → ((next : Option ℕ)
          → Reassigned p.reassign b.members e.0 next
          → Q (record e.0 { assignee_id = next }, record_assignee e.0.assignee_id next e.1) b)
      → Runs b (edit_assignee p req e) E Q
  unfolding edit_assignee Reassigned
  edit_assignee_runs p none e fails h =
      returns b e (rw (record_assignee_same e.0.assignee_id e.1) at (h e.0.assignee_id (inl refl)))
  edit_assignee_runs p (some a) e fails h =
      elim (Bool-cases (same_assignee e.0.assignee_id (next_assignee a))) [
        | inl same ↦ rw same (
            returns b e
              (rw (record_assignee_same e.0.assignee_id e.1) at (h e.0.assignee_id (inl refl))))
        | inr differ ↦ rw differ (
            reassign_runs p.reassign (next_assignee a) e fails
              λ may staffed. rw differ at (h (next_assignee a) (inr (may, staffed))))
      ]

content_rights :
    (r : Role) (actor : ℕ) (t : Task) {a d : String} {pr : TaskPriority} {du : Option ℕ}
    → Allowed (task_permissions_for r actor t).edit_content t.title a
    → Allowed (task_permissions_for r actor t).edit_content t.description d
    → Allowed (task_permissions_for r actor t).edit_content t.priority pr
    → Allowed (task_permissions_for r actor t).edit_content t.due_at du
    → MayEdit r actor t
      ⊎ ((a ≡ t.title) × (d ≡ t.description) × (pr ≡ t.priority) × (du ≡ t.due_at))
content_rights r actor t (inl h) hd hp hu = inl (may_edit r actor t h)
content_rights r actor t (inr ha) (inl h) hp hu = inl (may_edit r actor t h)
content_rights r actor t (inr ha) (inr hd) (inl h) hu = inl (may_edit r actor t h)
content_rights r actor t (inr ha) (inr hd) (inr hp) (inl h) = inl (may_edit r actor t h)
content_rights r actor t (inr ha) (inr hd) (inr hp) (inr hu) = inr (ha, hd, hp, hu)

assignment_rights :
    (r : Role) (actor : ℕ) (ms : List TeamMember) (t : Task) (next : Option ℕ)
    → Reassigned (task_permissions_for r actor t).reassign ms t next
    → (next ≡ t.assignee_id) ⊎ (MayEdit r actor t × IsStaffed ms t.team_id next)
unfolding Reassigned
assignment_rights r actor ms t next (inl h) = inl h
assignment_rights r actor ms t next (inr h) = inr (may_reassign_edit r actor t h.0, h.1)

-- The edited task is a revision that the actor is entitled to, and the changes are the difference.
pub apply_update_runs :
    {E : Db → Type 0} {Q : Edit → Db → Type 0} (b : Db) (clock : ℕ) (r : Role) (actor : ℕ)
    (t : Task) (req : UpdateTaskRequest)
    → E b
    → ((new : Task) → IsRevision r actor b.members t new → Q (new, diff t new) b)
    → Runs b (apply_update clock r actor t req) E Q
unfolding apply_update diff Reassigned
apply_update_runs {E} {Q} b clock r actor t req fails h = chain (
    lift_runs b _ fails λ _ some_right. chain (
      lift_gives_runs b _ fails (
        edit_fields-gives clock p req t _ λ a d pr du st cl ha hd hp hu hs.
          let edited : Task = record t {
            title = a;
            description = d;
            status = st;
            priority = pr;
            due_at = du;
            closed_at = cl;
          } in
          let cs : TaskChanges = record_closed_at t.closed_at cl (
            record_status t.status st (
              record_due_at t.due_at du (
                record_priority t.priority pr
                  (record_description t.description d (record_title t.title a []))))) in
          edit_assignee_runs b p req.assignee_id (edited, cs) fails
            λ next hn.
              h (record edited { assignee_id = next })
                (record {
                  identity = (refl, refl, refl);
                  origin = (refl, refl);
                  entitled = any_entitled r actor t (require_any-ok p some_right);
                  content = content_rights r actor t ha hd hp hu;
                  assignment = assignment_rights r actor b.members t next hn;
                  closing = closed_after-closed clock p.change_status t hs;
                }))))
  where
    p : TaskPermissions
    p = task_permissions_for r actor t
