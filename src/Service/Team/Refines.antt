-- ===== src/Service/Team/Refines.antt =====
-- Every method of the team service refines the specification: under any outages it fails and leaves
-- the tables as they were, or makes one step that the actor's role entitles him to.
use task_management.Base.{
  ℕ, String, Bool, true, false, some, ◌≡◌, refl, ◌≢◌, ◌⊎◌, inl, inr, arith, ◌==◌, Bool-cases,
  str_eq,
}
use task_management.Domain.Errors.{ok}
use task_management.Domain.Team.{Role, InviteMemberRequest, User}
use task_management.Domain.Text.{normalize_email}
use task_management.Database.Tables.{Db, role_of}
use task_management.Database.Runs.{Runs, returns, lift_runs, recast_runs, chain, within_tx_runs}
use task_management.Repository.User.Rules.{get_by_id_runs as user_by_id_runs, get_by_email_runs}
use task_management.Repository.Team.Rules.{
  get_member_role_runs, get_member_role_for_update_runs, get_by_id_runs, create_runs, rename_runs,
  delete_runs, add_member_runs, update_member_role_runs, remove_member_runs,
}
use task_management.Repository.Task.Rules.{unassign_user_runs}
use task_management.Service.Team.Spec.{
  TeamStep, creates, renames, invites, changes_role, removes, leaves, transfers, deletes,
}
use task_management.Service.Team.Guards.{
  can_invite_iff, can_change_role_iff, can_remove_member_iff, can_rename_team_iff,
  can_delete_team_iff, can_leave_iff, can_transfer_ownership_iff,
}
use task_management.Service.Team.{
  not_a_member, no_such_user, find_invitee, refuse_self, requested_role, invalidate_if, member_role,
  member_role_for_update, invalidate_tasks, create_team, get_team, rename_team, delete_team,
  invite_member, leave_team, transfer_ownership, change_member_role, remove_member,
}

ne_of_false : (a b : ℕ) → (a == b) ≡ false → b ≢ a
ne_of_false a b h = ground arith

module _ {E : Db → Type 0} {Q : Role → Db → Type 0} (b : Db) (t u : ℕ) where
  pub member_role_runs :
      E b → ((r : Role) → role_of t u b.members ≡ some r → Q r b) → Runs b (member_role t u) E Q
  unfolding member_role
  member_role_runs fails h = recast_runs b not_a_member _ (get_member_role_runs b t u fails h)

  pub member_role_for_update_runs :
      E b
      → ((r : Role) → role_of t u b.members ≡ some r → Q r b)
      → Runs b (member_role_for_update t u) E Q
  unfolding member_role_for_update
  member_role_for_update_runs fails h =
      recast_runs b not_a_member _ (get_member_role_for_update_runs b t u fails h)

module _ {E : Db → Type 0} {Q : Unit {0} → Db → Type 0} (b : Db) where
  pub invalidate_runs : (t : ℕ) → Q tt b → Runs b (invalidate_tasks t) E Q
  unfolding invalidate_tasks
  invalidate_runs t h = record { at = λ w. h }

  invalidate_if_runs : (c : Bool) (t : ℕ) → Q tt b → Runs b (invalidate_if c t) E Q
  invalidate_if_runs true t h = invalidate_runs t h
  invalidate_if_runs false t h = returns b tt h

-- Under any outages, RemoveMember fails and leaves the tables as they were, or makes one step of
-- TeamStep, a change to teams that the actor's role in the tables entitles him to.
pub remove_member-refines :
    (now actor t u : ℕ) (b : Db)
    → Runs b (remove_member now actor t u) (λ b'. b' ≡ b) (λ _ b'. TeamStep actor b b')
unfolding remove_member
remove_member-refines now actor t u b = chain (
    within_tx_runs b _ (
      chain (
        member_role_runs b t actor tt λ r actor_is. chain (
          get_member_role_for_update_runs b t u tt λ old target_is. chain (
            lift_runs b _ tt λ _ allowed.
              let rights = (can_remove_member_iff r old (actor == u)).0 allowed in
              chain (
                remove_member_runs b t u tt (
                  unassign_user_runs _ t u actor now tt tt (
                    invalidate_if_runs _ _ t (
                      removes now t u r old actor_is target_is (ne_of_false actor u rights.0)
                        rights.1)))))))))

-- Under any outages, LeaveTeam fails and leaves the tables as they were, or makes one step of
-- TeamStep, a change to teams that the actor's role in the tables entitles him to.
pub leave_team-refines :
    (now actor t : ℕ) (b : Db)
    → Runs b (leave_team now actor t) (λ b'. b' ≡ b) (λ _ b'. TeamStep actor b b')
unfolding leave_team
leave_team-refines now actor t b = chain (
    within_tx_runs b _ (
      chain (
        member_role_for_update_runs b t actor tt λ r actor_is. chain (
          lift_runs b _ tt λ _ allowed. chain (
            remove_member_runs b t actor tt (
              unassign_user_runs _ t actor actor now tt tt (
                invalidate_if_runs _ _ t
                  (leaves now t r actor_is ((can_leave_iff r).0 allowed)))))))))

-- Under any outages, ChangeMemberRole fails and leaves the tables as they were, or makes one step
-- of TeamStep, a change to teams that the actor's role in the tables entitles him to.
pub change_member_role-refines :
    (actor t u : ℕ) (role : Role) (b : Db)
    → Runs b (change_member_role actor t u role) (λ b'. b' ≡ b) (λ _ b'. TeamStep actor b b')
unfolding change_member_role
change_member_role-refines actor t u role b = within_tx_runs b _ (
    chain (
      member_role_runs b t actor tt λ r actor_is. chain (
        get_member_role_for_update_runs b t u tt λ old target_is. chain (
          lift_runs b _ tt λ _ allowed.
            let rights = (can_change_role_iff r old role (actor == u)).0 allowed in
            update_member_role_runs b t u role tt (
              changes_role t u r old role actor_is target_is (ne_of_false actor u rights.0) rights.1
                rights.2)))))

-- Under any outages, TransferOwnership fails and leaves the tables as they were, or makes one step
-- of TeamStep, a change to teams that the actor's role in the tables entitles him to.
pub transfer_ownership-refines :
    (actor t u : ℕ) (b : Db)
    → Runs b (transfer_ownership actor t u) (λ b'. b' ≡ b) (λ _ b'. TeamStep actor b b')
unfolding transfer_ownership
transfer_ownership-refines actor t u b = within_tx_runs b _ (
    chain (
      member_role_for_update_runs b t actor tt λ r actor_is. chain (
        lift_runs b _ tt λ _ allowed.
          let rights = (can_transfer_ownership_iff r (actor == u)).0 allowed in
          chain (
            get_member_role_for_update_runs b t u tt λ old target_is. chain (
              update_member_role_runs b t u Role.owner tt (
                update_member_role_runs _ t actor Role.admin tt (
                  transfers t u old (rw rights.0 at actor_is) target_is
                    (ne_of_false actor u rights.1))))))))

-- Under any outages, DeleteTeam fails and leaves the tables as they were, or makes one step of
-- TeamStep, a change to teams that the actor's role in the tables entitles him to.
pub delete_team-refines :
    (actor t : ℕ) (b : Db)
    → Runs b (delete_team actor t) (λ b'. b' ≡ b) (λ _ b'. TeamStep actor b b')
unfolding delete_team
delete_team-refines actor t b = chain (
    within_tx_runs b _ (
      chain (
        member_role_for_update_runs b t actor tt λ r actor_is. chain (
          lift_runs b _ tt λ _ allowed. delete_runs b t tt (
            invalidate_runs _ t
              (deletes t (rw ((can_delete_team_iff r).0 allowed) at actor_is)))))))

-- Under any outages, CreateTeam fails and leaves the tables as they were, or makes one step of
-- TeamStep, a change to teams that the actor's role in the tables entitles him to.
pub create_team-refines :
    (id now actor : ℕ) (name : String) (b : Db)
    → Runs b (create_team id now actor name) (λ b'. b' ≡ b) (λ _ b'. TeamStep actor b b')
unfolding create_team
create_team-refines id now actor name b = chain (
    within_tx_runs b _ (
      chain (
        create_runs b _ tt
          λ free. add_member_runs _ _ tt λ fresh known. returns _ _ (creates _ free fresh))))

pub get_team_runs :
    (actor t : ℕ) (b : Db) (P : Db → Type 0) → P b → Runs b (get_team actor t) P (λ _ b'. P b')
unfolding get_team
get_team_runs actor t b P h =
    chain (member_role_runs b t actor h λ r _. chain (get_by_id_runs b t h λ team _. returns b _ h))

-- Under any outages, RenameTeam, whether it fails or returns, leaves the tables as they were or makes
-- one step of TeamStep, a change to teams that the actor's role in the tables entitles him to.
pub rename_team-refines :
    (actor t : ℕ) (name : String) (b : Db)
    → Runs b
        (rename_team actor t name)
        (λ b'. (b' ≡ b) ⊎ TeamStep actor b b')
        (λ _ b'. (b' ≡ b) ⊎ TeamStep actor b b')
unfolding rename_team
rename_team-refines actor t name b = chain (
    member_role_runs b t actor (inl refl) λ r actor_is. chain (
      lift_runs b _ (inl refl) λ _ allowed. chain (
        rename_runs b t _ (inl refl) (
          get_team_runs actor t _ (λ b'. (b' ≡ b) ⊎ TeamStep actor b b')
            (inr (renames t _ r actor_is ((can_rename_team_iff r).0 allowed)))))))

find_invitee_runs :
    {E : Db → Type 0} {Q : User → Db → Type 0} (b : Db) (req : InviteMemberRequest)
    → E b
    → ((u : User) → Q u b)
    → Runs b (find_invitee req) E Q
find_invitee_runs b req fails h = elim (Bool-cases (str_eq req.email "")) [
  | inl e ↦ rw e (user_by_id_runs b req.user_id fails h)
  | inr e ↦ rw e (get_by_email_runs b (normalize_email req.email) fails h)
]

refuse_self-ok : (actor u : ℕ) → refuse_self actor u ≡ ok tt → u ≢ actor
refuse_self-ok actor u h = ground arith

-- Under any outages, InviteMember fails and leaves the tables as they were, or makes one step of
-- TeamStep, a change to teams that the actor's role in the tables entitles him to.
pub invite_member-refines :
    (actor t : ℕ) (req : InviteMemberRequest) (b : Db)
    → Runs b (invite_member actor t req) (λ b'. b' ≡ b) (λ _ b'. TeamStep actor b b')
unfolding invite_member
invite_member-refines actor t req b = chain (
    member_role_runs b t actor refl λ r actor_is. chain (
      lift_runs b _ refl λ _ allowed.
        let rights = (can_invite_iff r (requested_role req.role)).0 allowed in
        chain (
          recast_runs b no_such_user _ (
            find_invitee_runs b req refl λ invitee. chain (
              lift_runs b _ refl λ _ not_self. chain (
                add_member_runs b _ refl λ fresh known. returns _ _ (
                  invites t invitee.id r (requested_role req.role) actor_is rights.0 rights.1
                    (refuse_self-ok actor invitee.id not_self) fresh known)))))))
