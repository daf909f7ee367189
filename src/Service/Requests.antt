-- ===== src/Service/Requests.antt =====
-- The calls that handlers make of the team and the task service, one after the other, as
-- internal/server/http/server.go routes them. A request carries what the clock and the UUID generator
-- return during the call.
use task_management.Base.{ℕ, String, List, [], ◌∷◌}
use task_management.Domain.Team.{Role, InviteMemberRequest}
use task_management.Domain.Task.{CreateTaskRequest, UpdateTaskRequest}
use task_management.Database.Tx.{World, Action, pure, ◌>>◌}
use task_management.Service.Team.{
  create_team, get_team, rename_team, delete_team, invite_member, leave_team, transfer_ownership,
  change_member_role, remove_member,
}
use task_management.Service.Task.{
  create_task, get_task, delete_task, update_task, add_comment, edit_comment, delete_comment,
}

pub data Request : Type 0 where
  create_team_req : (id now actor : ℕ) → String → Request
  get_team_req : (actor team : ℕ) → Request
  rename_team_req : (actor team : ℕ) → String → Request
  delete_team_req : (actor team : ℕ) → Request
  invite_member_req : (actor team : ℕ) → InviteMemberRequest → Request
  leave_team_req : (now actor team : ℕ) → Request
  transfer_ownership_req : (actor team user : ℕ) → Request
  change_member_role_req : (actor team user : ℕ) → Role → Request
  remove_member_req : (now actor team user : ℕ) → Request
  create_task_req : (id clock actor : ℕ) → CreateTaskRequest → Request
  get_task_req : (actor task : ℕ) → Request
  update_task_req : (closing clock actor task : ℕ) → UpdateTaskRequest → Request
  delete_task_req : (actor task : ℕ) → Request
  add_comment_req : (id clock actor task : ℕ) → String → Request
  edit_comment_req : (clock actor task comment : ℕ) → String → Request
  delete_comment_req : (actor task comment : ℕ) → Request

-- The service call behind a request; the handlers only render the reply.
abbrev pub serve : Request → Action (Unit {0})
serve (create_team_req id now actor name) = create_team id now actor name >> pure tt
serve (get_team_req actor team) = get_team actor team >> pure tt
serve (rename_team_req actor team name) = rename_team actor team name >> pure tt
serve (delete_team_req actor team) = delete_team actor team
serve (invite_member_req actor team req) = invite_member actor team req >> pure tt
serve (leave_team_req now actor team) = leave_team now actor team
serve (transfer_ownership_req actor team user) = transfer_ownership actor team user
serve (change_member_role_req actor team user role) = change_member_role actor team user role
serve (remove_member_req now actor team user) = remove_member now actor team user
serve (create_task_req id clock actor req) = create_task id clock actor req >> pure tt
serve (get_task_req actor task) = get_task actor task >> pure tt
serve (update_task_req closing clock actor task req) =
    update_task closing clock actor task req >> pure tt
serve (delete_task_req actor task) = delete_task actor task
serve (add_comment_req id clock actor task text) = add_comment id clock actor task text >> pure tt
serve (edit_comment_req clock actor task comment text) =
    edit_comment clock actor task comment text >> pure tt
serve (delete_comment_req actor task comment) = delete_comment actor task comment

-- The actor of a request, whom the access token names.
abbrev pub actor_of : Request → ℕ
actor_of (create_team_req id now actor name) = actor
actor_of (get_team_req actor team) = actor
actor_of (rename_team_req actor team name) = actor
actor_of (delete_team_req actor team) = actor
actor_of (invite_member_req actor team req) = actor
actor_of (leave_team_req now actor team) = actor
actor_of (transfer_ownership_req actor team user) = actor
actor_of (change_member_role_req actor team user role) = actor
actor_of (remove_member_req now actor team user) = actor
actor_of (create_task_req id clock actor req) = actor
actor_of (get_task_req actor task) = actor
actor_of (update_task_req closing clock actor task req) = actor
actor_of (delete_task_req actor task) = actor
actor_of (add_comment_req id clock actor task text) = actor
actor_of (edit_comment_req clock actor task comment text) = actor
actor_of (delete_comment_req actor task comment) = actor

-- The world after a sequence of requests, whether they fail or not.
abbrev pub run : List Request → World → World
run [] w = w
run (r ∷ rs) w = run rs (serve r w).1
