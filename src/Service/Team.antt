-- ===== src/Service/Team.antt =====
-- internal/service/team.go and memberRole of service.go. What `s.now()`, `UTC_TIMESTAMP()` and
-- `uuid.NewString()` return is an argument. Log lines are left out.
use task_management.Base.{ℕ, String, Bool, false, List, ◌∷◌, ◌==◌, ◌<◌, if◌then◌else◌, ltb, str_eq}
pub mod Spec
pub mod Guards
pub mod Refines
pub mod Owners
pub mod Ownership
pub mod Completes
pub mod Report
use task_management.Domain.Errors.{
  Failure, domain, is, Result, ok, err, forbidden, not_found, invalid_input,
}
use task_management.Domain.Team.{
  Role, owner, admin, member, other, role_eq, User, Team, TeamView, TeamMember, TeamMemberResponse,
  InviteMemberRequest,
}
use task_management.Domain.Stats.{TeamStats}
use task_management.Domain.Text.{trim_space, normalize_email}
use task_management.Database.Tx.{World, Action, pure, lift, ◌>>=◌, ◌>>◌, recast, within_tx}
use task_management.Repository.User
use task_management.Repository.Team
use task_management.Repository.Task
use task_management.Repository.Team.Stats as Stats
use task_management.Service.Rbac.{
  can_invite, can_change_role, can_remove_member, can_rename_team, can_delete_team, can_leave,
  can_transfer_ownership, can_view_analytics,
}

-- A row that is not there means that the caller is no member.
abbrev not_a_member : Failure → Failure
not_a_member e = if is e not_found then domain forbidden "you are not a member of this team" else e

unfoldable pub member_role : ℕ → ℕ → Action Role
member_role team_id user_id = recast not_a_member (Team.get_member_role team_id user_id)

-- The same test around the locking read of DeleteTeam, LeaveTeam and TransferOwnership.
unfoldable pub member_role_for_update : ℕ → ℕ → Action Role
member_role_for_update team_id user_id =
    recast not_a_member (Team.get_member_role_for_update team_id user_id)

-- `invalidateTasks`: a failure is logged and forgotten.
unfoldable pub invalidate_tasks : ℕ → Action (Unit {0})
invalidate_tasks team_id w = (ok tt, record w { invalidated = team_id ∷ w.invalidated })

unfoldable pub create_team : ℕ → ℕ → ℕ → String → Action TeamView
create_team id now user_id name =
    let team : Team = record {
      id = id;
      name = trim_space name;
      created_by = user_id;
      created_at = now;
    } in
    let membership : TeamMember = record { team_id = id; user_id = user_id; role = owner } in
    do
      within_tx false (λ _. Team.create team >> Team.add_member membership)
      pure (record { team = team; role = owner })

unfoldable pub list_teams : ℕ → Action (List TeamView)
list_teams user_id = Team.list_by_user user_id

unfoldable pub get_team : ℕ → ℕ → Action TeamView
get_team user_id team_id = do
  role ← member_role team_id user_id
  team ← Team.get_by_id team_id
  pure (record { team = team; role = role })

unfoldable pub rename_team : ℕ → ℕ → String → Action TeamView
rename_team user_id team_id name = do
  role ← member_role team_id user_id
  lift (can_rename_team role)
  Team.rename team_id (trim_space name)
  get_team user_id team_id

unfoldable pub delete_team : ℕ → ℕ → Action (Unit {0})
delete_team user_id team_id = do
  within_tx false λ _. do
    role ← member_role_for_update team_id user_id
    lift (can_delete_team role)
    Team.delete team_id
  invalidate_tasks team_id

abbrev requested_role : Role → Role
requested_role role = if role_eq role (other "") then member else role

abbrev no_such_user : Failure → Failure
no_such_user e = if is e not_found then domain not_found "no user with this id or email" else e

abbrev find_invitee : InviteMemberRequest → Action User
find_invitee req =
    if str_eq req.email ""
    then User.get_by_id req.user_id
    else User.get_by_email (normalize_email req.email)

abbrev refuse_self : ℕ → ℕ → Result (Unit {0})
refuse_self actor_id invitee_id =
    if invitee_id == actor_id
    then err (domain invalid_input "you are already a member of this team")
    else ok tt

unfoldable pub invite_member : ℕ → ℕ → InviteMemberRequest → Action TeamMember
invite_member actor_id team_id req = do
  actor_role ← member_role team_id actor_id
  lift (can_invite actor_role (requested_role req.role))
  invitee ← recast no_such_user (find_invitee req)
  lift (refuse_self actor_id invitee.id)
  let added : TeamMember = record {
    team_id = team_id;
    user_id = invitee.id;
    role = requested_role req.role;
  }
  Team.add_member added
  pure added

abbrev invalidate_if : Bool → ℕ → Action (Unit {0})
invalidate_if b team_id = if b then invalidate_tasks team_id else pure tt

unfoldable pub leave_team : ℕ → ℕ → ℕ → Action (Unit {0})
leave_team now user_id team_id = do
  unassigned ← within_tx false λ _. do
    role ← member_role_for_update team_id user_id
    lift (can_leave role)
    Team.remove_member team_id user_id
    Task.unassign_user team_id user_id user_id now
  invalidate_if (ltb 0 unassigned) team_id

unfoldable pub transfer_ownership : ℕ → ℕ → ℕ → Action (Unit {0})
transfer_ownership actor_id team_id new_owner_id = within_tx false λ _. do
  actor_role ← member_role_for_update team_id actor_id
  lift (can_transfer_ownership actor_role (actor_id == new_owner_id))
  Team.get_member_role_for_update team_id new_owner_id
  Team.update_member_role team_id new_owner_id owner
  Team.update_member_role team_id actor_id admin

unfoldable pub list_members : ℕ → ℕ → Action (List TeamMemberResponse)
list_members user_id team_id = do member_role team_id user_id; Team.list_members team_id

unfoldable pub change_member_role : ℕ → ℕ → ℕ → Role → Action (Unit {0})
change_member_role actor_id team_id target_id role = within_tx false λ _. do
  actor_role ← member_role team_id actor_id
  target_role ← Team.get_member_role_for_update team_id target_id
  lift (can_change_role actor_role target_role role (actor_id == target_id))
  Team.update_member_role team_id target_id role

unfoldable pub remove_member : ℕ → ℕ → ℕ → ℕ → Action (Unit {0})
remove_member now actor_id team_id target_id = do
  unassigned ← within_tx false λ _. do
    actor_role ← member_role team_id actor_id
    target_role ← Team.get_member_role_for_update team_id target_id
    lift (can_remove_member actor_role target_role (actor_id == target_id))
    Team.remove_member team_id target_id
    Task.unassign_user team_id target_id actor_id now
  invalidate_if (ltb 0 unassigned) team_id

-- The clock of the MySQL server and the order of names in its collation are arguments.
unfoldable pub get_stats : (String → String → Bool) → ℕ → ℕ → ℕ → Action TeamStats
get_stats name_first now user_id team_id = do
  role ← member_role team_id user_id
  lift (can_view_analytics role)
  Stats.get_stats name_first now team_id
