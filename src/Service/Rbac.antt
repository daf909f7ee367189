-- ===== src/Service/Rbac.antt =====
-- internal/service/rbac.go: the authorisation rules, as pure functions.
use task_management.Base.{ℕ, Bool, true, false, not, ◌&&◌, ◌||◌, ◌==◌, if◌then◌else◌}
use task_management.Domain.Errors.{domain, Result, ok, err, forbidden, invalid_input}
use task_management.Domain.Team.{Role, owner, admin, member, role_eq, is_manager}
use task_management.Domain.Task.{Task, is_assignee, TaskComment}

abbrev invitable : Role → Result (Unit {0})
invitable member = ok tt
invitable admin = ok tt
invitable _ =
    err (domain invalid_input "invited members can only be given the admin or member role")

unfoldable pub can_invite : Role → Role → Result (Unit {0})
can_invite actor invitee =
    if not (is_manager actor)
    then err (domain forbidden "only the team owner or an admin can invite members")
    else invitable invitee

unfoldable pub can_change_role : Role → Role → Role → Bool → Result (Unit {0})
can_change_role actor target new_role self =
    if not (role_eq new_role admin) && not (role_eq new_role member)
    then err (domain invalid_input "role must be admin or member")
    else if self
    then err (domain invalid_input "you cannot change your own role")
    else if not (is_manager actor)
    then err (domain forbidden "only the team owner or an admin can change roles")
    else if role_eq target owner
    then err (domain forbidden "the team owner's role cannot be changed")
    else if role_eq actor admin && role_eq target admin
    then err (domain forbidden "admins cannot change another admin's role")
    else if role_eq target new_role
    then err (domain invalid_input "member already has this role")
    else ok tt

unfoldable pub can_remove_member : Role → Role → Bool → Result (Unit {0})
can_remove_member actor target self =
    if self
    then err (domain invalid_input "you cannot remove yourself")
    else if not (is_manager actor)
    then err (domain forbidden "only the team owner or an admin can remove members")
    else if role_eq target owner
    then err (domain forbidden "the team owner cannot be removed")
    else if role_eq actor admin && role_eq target admin
    then err (domain forbidden "admins cannot remove another admin")
    else ok tt

unfoldable pub can_view_analytics : Role → Result (Unit {0})
can_view_analytics role =
    if not (is_manager role)
    then err (domain forbidden "only the team owner or an admin can view analytics")
    else ok tt

pub record TaskPermissions : Type 0 where
  pub edit_content : Bool
  pub change_status : Bool
  pub reassign : Bool
  pub delete : Bool

-- `Any`
abbrev pub any : TaskPermissions → Bool
any p = p.edit_content || p.change_status || p.reassign

unfoldable pub task_permissions_for : Role → ℕ → Task → TaskPermissions
task_permissions_for role user_id task =
    if is_manager role || task.created_by == user_id
    then record { edit_content = true; change_status = true; reassign = true; delete = true }
    else if is_assignee task user_id
    then record { edit_content = false; change_status = true; reassign = false; delete = false }
    else record { edit_content = false; change_status = false; reassign = false; delete = false }

unfoldable pub can_edit_comment : ℕ → TaskComment → Bool
can_edit_comment user_id c = c.user_id == user_id

unfoldable pub can_delete_comment : Role → ℕ → TaskComment → Bool
can_delete_comment role user_id c = c.user_id == user_id || is_manager role

unfoldable pub can_rename_team : Role → Result (Unit {0})
can_rename_team role =
    if not (is_manager role)
    then err (domain forbidden "only the team owner or an admin can rename the team")
    else ok tt

unfoldable pub can_delete_team : Role → Result (Unit {0})
can_delete_team role =
    if not (role_eq role owner)
    then err (domain forbidden "only the team owner can delete the team")
    else ok tt

unfoldable pub can_leave : Role → Result (Unit {0})
can_leave role =
    if role_eq role owner
    then err (domain forbidden "the owner cannot leave; transfer ownership first")
    else ok tt

unfoldable pub can_transfer_ownership : Role → Bool → Result (Unit {0})
can_transfer_ownership actor self =
    if not (role_eq actor owner)
    then err (domain forbidden "only the team owner can transfer ownership")
    else if self
    then err (domain invalid_input "you already own this team")
    else ok tt
