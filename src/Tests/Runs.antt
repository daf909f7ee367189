-- ===== src/Tests/Runs.antt =====
-- The outcomes of some calls.
use task_management.Base.{str_eq, none, [], ◌∷◌, ◌≡◌, refl}
use task_management.Domain.Errors.{ErrorCode, domain, err, ◌>>=ᵣ◌}
use task_management.Domain.Team.{owner}
use task_management.Domain.Text.{trim_space, is_space}
use task_management.Database.Tx.{lift, ◌>>=◌, recast, exec, query, within_tx}
use task_management.Repository.User
use task_management.Repository.Team
use task_management.Repository.Task
use task_management.Service.Rbac.{
  can_invite, can_remove_member, can_leave, can_transfer_ownership, task_permissions_for,
}
use task_management.Service.Requests.{run}
use task_management.Service.Team.{
  member_role, member_role_for_update, invalidate_tasks, create_team, invite_member,
  transfer_ownership, remove_member, leave_team,
}
use task_management.Service.Task.{create_task, update_task, record_history}
use task_management.Service.Task.Update.{
  normalize_due_at, require_member, edit_title, edit_description, edit_priority, edit_due_at,
  edit_status, close_or_reopen, edit_assignee, edit_fields, apply_update,
}
use task_management.Service.Invariant.Reach.{started}
use task_management.Tests.Sample.{people, quiet, world, ticket, story}

-- The owner cannot leave his team.
owner_stays :
    (leave_team 9 1 7 world).0
    ≡ err (domain ErrorCode.forbidden "the owner cannot leave; transfer ownership first")
unfolding leave_team member_role_for_update Team.get_member_role_for_update recast query exec
    within_tx ◌>>=◌ lift can_leave
owner_stays = refl

-- Member 3 is removed, and his task is unassigned at its next version.
unassigned_task :
    (remove_member 9 1 7 3 world).1.db.tasks
    ≡ (record ticket { assignee_id = none; updated_at = 9; version = 2 }) ∷ []
unfolding remove_member member_role Team.get_member_role Team.get_member_role_for_update
    Team.remove_member Task.unassign_user recast query exec within_tx ◌>>=◌ lift can_remove_member
    invalidate_tasks
unassigned_task = refl

-- The story ends with the heir alone in the team.
heir_alone :
    (run story (started str_eq people quiet)).db.members
    ≡ record { team_id = 7; user_id = 4; role = owner } ∷ []
unfolding remove_member member_role member_role_for_update Team.get_member_role
    Team.get_member_role_for_update Team.remove_member Team.add_member Team.create Team.is_member
    Team.update_member_role Task.unassign_user Task.create Task.add_history
    Task.get_by_id_for_update Task.update User.get_by_id recast query exec within_tx ◌>>=◌ lift
    can_remove_member can_invite can_transfer_ownership invalidate_tasks create_team invite_member
    transfer_ownership create_task update_task record_history normalize_due_at require_member
    trim_space is_space edit_title edit_description edit_priority edit_due_at edit_status
    close_or_reopen edit_assignee edit_fields apply_update task_permissions_for ◌>>=ᵣ◌
heir_alone = refl
