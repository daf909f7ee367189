-- ===== src/Service/Team/Guards.antt =====
-- The rules of rbac.go against the ranks of the specification: a rule is passed exactly when the
-- actor's rank entitles him to the change.
use task_management.Base.{Bool, false, ◌≡◌, ◌≢◌, ◌↔◌, arith}
use task_management.Domain.Errors.{ok}
use task_management.Domain.Team.{Role, owner}
use task_management.Service.Rbac.{
  can_invite, can_change_role, can_remove_member, can_view_analytics, can_rename_team,
  can_delete_team, can_leave, can_transfer_ownership,
}
use task_management.Service.Team.Spec.{Outranks, Manages, Grantable}

-- CanInvite passes exactly when the actor is the owner or an admin and the invited role is admin or
-- member.
pub can_invite_iff :
    (actor invitee : Role)
    → (can_invite actor invitee ≡ ok tt) ↔ (Manages actor × Grantable invitee)
unfolding can_invite
can_invite_iff actor invitee = (λ h. (ground arith, ground arith), λ h. ground arith)

-- CanChangeRole passes exactly when the actor does not act on himself, outranks the target, and the
-- new role is admin or member and not the role that the target has.
pub can_change_role_iff :
    (actor target new_role : Role) (self : Bool)
    → (can_change_role actor target new_role self ≡ ok tt)
      ↔ ((self ≡ false) × Outranks actor target × Grantable new_role × (target ≢ new_role))
unfolding can_change_role
can_change_role_iff actor target new_role self =
    (λ h. (ground arith, ground arith, ground arith, ground arith), λ h. ground arith)

-- CanRemoveMember passes exactly when the actor does not act on himself and outranks the target.
pub can_remove_member_iff :
    (actor target : Role) (self : Bool)
    → (can_remove_member actor target self ≡ ok tt) ↔ ((self ≡ false) × Outranks actor target)
unfolding can_remove_member
can_remove_member_iff actor target self = (λ h. (ground arith, ground arith), λ h. ground arith)

pub can_rename_team_iff : (actor : Role) → (can_rename_team actor ≡ ok tt) ↔ Manages actor
unfolding can_rename_team
can_rename_team_iff actor = (λ h. ground arith, λ h. ground arith)

pub can_view_analytics_iff : (actor : Role) → (can_view_analytics actor ≡ ok tt) ↔ Manages actor
unfolding can_view_analytics
can_view_analytics_iff actor = (λ h. ground arith, λ h. ground arith)

pub can_delete_team_iff : (actor : Role) → (can_delete_team actor ≡ ok tt) ↔ (actor ≡ owner)
unfolding can_delete_team
can_delete_team_iff actor = (λ h. ground arith, λ h. ground arith)

pub can_leave_iff : (actor : Role) → (can_leave actor ≡ ok tt) ↔ (actor ≢ owner)
unfolding can_leave
can_leave_iff actor = (λ h. ground arith, λ h. ground arith)

pub can_transfer_ownership_iff :
    (actor : Role) (self : Bool)
    → (can_transfer_ownership actor self ≡ ok tt) ↔ ((actor ≡ owner) × (self ≡ false))
unfolding can_transfer_ownership
can_transfer_ownership_iff actor self = (λ h. (ground arith, ground arith), λ h. ground arith)
