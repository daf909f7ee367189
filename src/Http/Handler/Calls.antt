-- ===== src/Http/Handler/Calls.antt =====
-- The routes of teams and tasks in internal/server/http/server.go, each with its handler. A call
-- carries the caller whom the middleware has left, the ids of the path, the body or the query as it
-- was read, and what the clock and the UUID generator return during the call.
use task_management.Base.{ℕ, String, Bool, Option}
use task_management.Domain.Team.{Role, InviteMemberRequest}
use task_management.Domain.Task.{CreateTaskRequest, UpdateTaskRequest}
use task_management.Domain.Listing.{TaskListQuery, TaskListResponse, Codec}
use task_management.Database.Tx.{World}
use task_management.Http.Response.{Reply, Bound}
use task_management.Http.Handler.Flow.{Body}
use task_management.Http.Handler.Team as Team
use task_management.Http.Handler.Task as Task

pub data Call : Type 0 where
  create_team : ℕ → ℕ → Bound String → Call
  list_teams : Call
  invite : Option ℕ → Bound InviteMemberRequest → Call
  list_members : Option ℕ → Call
  change_member_role : Option ℕ → Option ℕ → Bound Role → Call
  remove_member : ℕ → Option ℕ → Option ℕ → Call
  get_stats : (String → String → Bool) → ℕ → Option ℕ → Call
  get_team : Option ℕ → Call
  rename_team : Option ℕ → Bound String → Call
  delete_team : Option ℕ → Call
  leave_team : ℕ → Option ℕ → Call
  transfer_ownership : Option ℕ → Bound ℕ → Call
  create_task : ℕ → ℕ → Bound CreateTaskRequest → Call
  list_tasks :
      Codec → (String → String → Bool) → ℕ → Option TaskListResponse → Bound TaskListQuery → Call
  get_task : Option ℕ → Call
  delete_task : Option ℕ → Call
  update_task : ℕ → ℕ → Option ℕ → Bound UpdateTaskRequest → Call
  get_history : Option ℕ → Call
  add_comment : ℕ → ℕ → Option ℕ → Bound String → Call
  list_comments : Option ℕ → Call
  edit_comment : ℕ → Option ℕ → Option ℕ → Bound String → Call
  delete_comment : Option ℕ → Option ℕ → Call

-- The status of the reply, and what is left.
abbrev pub status_of : {A : Type 0} → Reply (Body A) × World → ℕ × World
status_of (reply, w) = (reply.status, w)

unfoldable pub handle : Option ℕ → Call → World → ℕ × World
handle user (create_team id now body) w = status_of (Team.create id now user body w)
handle user list_teams w = status_of (Team.list user w)
handle user (invite id body) w = status_of (Team.invite user id body w)
handle user (list_members id) w = status_of (Team.list_members user id w)
handle user (change_member_role id target body) w =
    status_of (Team.change_member_role user id target body w)
handle user (remove_member now id target) w = status_of (Team.remove_member now user id target w)
handle user (get_stats name_first now id) w = status_of (Team.get_stats name_first now user id w)
handle user (get_team id) w = status_of (Team.get user id w)
handle user (rename_team id body) w = status_of (Team.rename user id body w)
handle user (delete_team id) w = status_of (Team.delete user id w)
handle user (leave_team now id) w = status_of (Team.leave now user id w)
handle user (transfer_ownership id body) w = status_of (Team.transfer_ownership user id body w)
handle user (create_task id clock body) w = status_of (Task.create id clock user body w)
handle user (list_tasks codec like now cached params) w =
    status_of (Task.list_by_team codec like now cached user params w)
handle user (get_task id) w = status_of (Task.get user id w)
handle user (delete_task id) w = status_of (Task.delete user id w)
handle user (update_task closing clock id body) w =
    status_of (Task.update closing clock user id body w)
handle user (get_history id) w = status_of (Task.get_history user id w)
handle user (add_comment new clock id body) w =
    status_of (Task.add_comment new clock user id body w)
handle user (list_comments id) w = status_of (Task.list_comments user id w)
handle user (edit_comment clock id comment body) w =
    status_of (Task.edit_comment clock user id comment body w)
handle user (delete_comment id comment) w = status_of (Task.delete_comment user id comment w)
