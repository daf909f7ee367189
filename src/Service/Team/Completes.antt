-- ===== src/Service/Team/Completes.antt =====
-- With no outage, what the rules allow is done.
use task_management.Base.{ℕ, Bool, true, false, some, ◌≡◌, ◌≢◌, refl, arith, ◌==◌, sym, ◌∙◌}
use task_management.Domain.Team.{Role}
use task_management.Database.Tables.{Db, role_of}
use task_management.Database.Quiet.{
  Completes, lift_completes, query_completes, exec_completes, recast_completes, within_tx_completes,
  chain_completes,
}
use task_management.Repository.Team
use task_management.Repository.Team.{set_role, changes_role, drop_member}
use task_management.Repository.Task
use task_management.Repository.Task.{record_unassigned, count_assigned, unassign_rows}
use task_management.Service.Team.Guards.{can_transfer_ownership_iff, can_remove_member_iff}
use task_management.Service.Team.Owners.{role_of-set_role_ne}
use task_management.Service.Team.Spec.{ranked, departed, Outranks}
use task_management.Service.Team.{
  not_a_member, member_role, invalidate_tasks, invalidate_if, remove_member, member_role_for_update,
  transfer_ownership,
}

module _ {Q : Role → Db → Type 0} (b : Db) (t u : ℕ) (r : Role)
    (is : role_of t u b.members ≡ some r) where
  get_role_completes : Q r b → Completes b (Team.get_member_role_for_update t u) Q
  unfolding Team.get_member_role_for_update
  get_role_completes h = query_completes b _ _ r (rw is refl) h

  member_role_completes : Q r b → Completes b (member_role_for_update t u) Q
  unfolding member_role_for_update
  member_role_completes h = recast_completes b not_a_member _ (get_role_completes h)

module _ {Q : Unit {0} → Db → Type 0} (b : Db) (t u : ℕ) (r : Role) where
  update_role_completes :
      changes_role r (role_of t u b.members) ≡ true
      → Q tt (ranked t u r b)
      → Completes b (Team.update_member_role t u r) Q
  unfolding Team.update_member_role
  update_role_completes is h = exec_completes b (ranked t u r b) _ _ tt (rw is refl) h

-- With no outage, TransferOwnership by the owner to another member, who is not an owner, returns, and
-- the new owner is `u`, and `actor` is an admin, whatever rank `u` had.
pub transfer_ownership_completes :
    (actor t u : ℕ) (r : Role) (b : Db)
    → role_of t actor b.members ≡ some Role.owner
    → role_of t u b.members ≡ some r
    → r ≢ Role.owner
    → u ≢ actor
    → Completes b
        (transfer_ownership actor t u)
        (λ _ b'. b' ≡ ranked t actor Role.admin (ranked t u Role.owner b))
unfolding transfer_ownership
transfer_ownership_completes actor t u r b mine theirs low ne = within_tx_completes b _ (
    chain_completes (
      member_role_completes b t actor Role.owner mine (
        chain_completes (
          lift_completes b _ tt
            ((can_transfer_ownership_iff Role.owner (actor == u)).1 (refl, ground arith))
            (chain_completes (
              get_role_completes b t u r theirs (
                chain_completes (
                  update_role_completes b t u Role.owner (rw theirs (ground arith)) (
                    update_role_completes (ranked t u Role.owner b) t actor Role.admin
                      (rw
                        (role_of-set_role_ne t u Role.owner actor b.members (λ e. ne (sym e))
                          ∙ mine)
                        refl)
                      refl)))))))))

module _ {Q : Unit {0} → Db → Type 0} (b : Db) where
  invalidate_if_completes : (c : Bool) (t : ℕ) → Q tt b → Completes b (invalidate_if c t) Q
  unfolding invalidate_tasks
  invalidate_if_completes true t h = record { at = λ w quiet. (h, quiet) }
  invalidate_if_completes false t h = lift_completes b _ tt refl h

  remove_row_completes :
      (t u : ℕ) (r : Role)
      → role_of t u b.members ≡ some r
      → Q tt (record b { members = drop_member t u b.members })
      → Completes b (Team.remove_member t u) Q
  unfolding Team.remove_member
  remove_row_completes t u r is h = exec_completes b _ _ _ tt (rw is refl) h

module _ {Q : ℕ → Db → Type 0} (b : Db) where
  unassign_user_completes :
      (t u by now : ℕ)
      → let noted : Db = record_unassigned b.tasks t u by now b in
        Q
          (count_assigned t u noted.tasks)
          (record noted { tasks = unassign_rows t u now noted.tasks })
        → Completes b (Task.unassign_user t u by now) Q
  unfolding Task.unassign_user
  unassign_user_completes t u by now h =
      chain_completes (exec_completes b _ _ _ tt refl (exec_completes _ _ _ _ _ refl h))

get_member_role_completes :
    {Q : Role → Db → Type 0} (b : Db) (t u : ℕ) (r : Role)
    → role_of t u b.members ≡ some r
    → Q r b
    → Completes b (member_role t u) Q
unfolding member_role Team.get_member_role
get_member_role_completes b t u r is h =
    recast_completes b not_a_member _ (query_completes b _ _ r (rw is refl) h)

differ : (a b : ℕ) → b ≢ a → (a == b) ≡ false
differ a b ne = ground arith

-- With no outage, RemoveMember by an actor who outranks the member returns, and the member is out of
-- the team with his tasks recorded as unassigned, and unassigned.
pub remove_member_completes :
    (now actor t u : ℕ) (r old : Role) (b : Db)
    → role_of t actor b.members ≡ some r
    → role_of t u b.members ≡ some old
    → u ≢ actor
    → Outranks r old
    → Completes b (remove_member now actor t u) (λ _ b'. b' ≡ departed now actor t u b)
unfolding remove_member
remove_member_completes now actor t u r old b mine theirs ne out = chain_completes (
    within_tx_completes b _ (
      chain_completes (
        get_member_role_completes b t actor r mine (
          chain_completes (
            get_role_completes b t u old theirs (
              chain_completes (
                lift_completes b _ tt
                  ((can_remove_member_iff r old (actor == u)).1 (differ actor u ne, out))
                  (chain_completes (
                    remove_row_completes b t u old theirs (
                      unassign_user_completes _ t u actor now
                        (invalidate_if_completes _ _ t refl)))))))))))
