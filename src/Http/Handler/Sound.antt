-- ===== src/Http/Handler/Sound.antt =====
-- What a handler leaves behind, whatever it is sent.
use task_management.Base.{ℕ, Option, none, ◌≡◌, refl}
use task_management.Database.Tx.{World}
use task_management.Service.Invariant.Steps.{
  add_comment-Steps, change_member_role-Steps, create_task-Steps, create_team-Steps,
  delete_comment-Steps, delete_task-Steps, delete_team-Steps, edit_comment-Steps, get_task-Steps,
  get_team-Steps, invite_member-Steps, leave_team-Steps, remove_member-Steps, rename_team-Steps,
  transfer_ownership-Steps, update_task-Steps,
}
use task_management.Http.Response.{error_handler, to_response, current_user}
use task_management.Http.Handler.Flow.{◌>>=◌, answer, caller_and}
use task_management.Http.Handler.Calls.{Call, handle}
use task_management.Http.Handler.Team as Team
use task_management.Http.Handler.Task as Task
use task_management.Http.Handler.Passing.{
  current_user-Passing, ByCaller, answer-ByCaller, caller_and-Passing, body-Passing, id-Passing,
  two-Passing, list_teams-Steps, list_members-Steps, get_stats-Steps, get_history-Steps,
  list_comments-Steps, list_tasks-Steps,
}

-- A call to any route of teams or tasks, under any outages, whatever ids, body or query it brings,
-- leaves the tables as they were or makes one step of the specifications that the caller whom the
-- middleware has left is entitled to; where it has left none nothing changes.
pub handle-ByCaller :
    (user : Option ℕ) (call : Call) (w : World) → ByCaller user w.db (handle user call w).1.db
unfolding handle Team.create Team.list Team.invite Team.list_members Team.change_member_role
    Team.remove_member Team.get_stats Team.get Team.rename Team.delete Team.leave
    Team.transfer_ownership Task.create Task.list_by_team Task.get Task.delete Task.update
    Task.get_history Task.add_comment Task.list_comments Task.edit_comment Task.delete_comment
handle-ByCaller user (Call.create_team id now body) w =
    answer-ByCaller user (λ c. c.0) 201 _ _ w (body-Passing user _)
      (λ c. create_team-Steps w.db id now c.0 c.1)
handle-ByCaller user Call.list_teams w =
    answer-ByCaller user (λ u. u) 200 _ _ w (current_user-Passing user)
      (λ c. list_teams-Steps w.db c)
handle-ByCaller user (Call.invite id body) w =
    answer-ByCaller user (λ c. c.0.0) 201 _ _ w (id-Passing _ user id _)
      (λ c. invite_member-Steps w.db c.0.0 c.0.1 c.1)
handle-ByCaller user (Call.list_members id) w =
    answer-ByCaller user (λ c. c.0) 200 _ _ w (caller_and-Passing _ user id)
      (λ c. list_members-Steps w.db c.0 c.1)
handle-ByCaller user (Call.change_member_role id target body) w =
    answer-ByCaller user (λ c. c.0.0) 204 _ _ w (two-Passing _ user id _ _)
      (λ c. change_member_role-Steps w.db c.0.0 c.0.1 c.1 c.2)
handle-ByCaller user (Call.remove_member now id target) w =
    answer-ByCaller user (λ c. c.0.0) 204 _ _ w (id-Passing _ user id _)
      (λ c. remove_member-Steps w.db now c.0.0 c.0.1 c.1)
handle-ByCaller user (Call.get_stats name_first now id) w =
    answer-ByCaller user (λ c. c.0) 200 _ _ w (caller_and-Passing _ user id)
      (λ c. get_stats-Steps w.db name_first now c.0 c.1)
handle-ByCaller user (Call.get_team id) w =
    answer-ByCaller user (λ c. c.0) 200 _ _ w (caller_and-Passing _ user id)
      (λ c. get_team-Steps w.db c.0 c.1)
handle-ByCaller user (Call.rename_team id body) w =
    answer-ByCaller user (λ c. c.0.0) 200 _ _ w (id-Passing _ user id _)
      (λ c. rename_team-Steps w.db c.0.0 c.0.1 c.1)
handle-ByCaller user (Call.delete_team id) w =
    answer-ByCaller user (λ c. c.0) 204 _ _ w (caller_and-Passing _ user id)
      (λ c. delete_team-Steps w.db c.0 c.1)
handle-ByCaller user (Call.leave_team now id) w =
    answer-ByCaller user (λ c. c.0) 204 _ _ w (caller_and-Passing _ user id)
      (λ c. leave_team-Steps w.db now c.0 c.1)
handle-ByCaller user (Call.transfer_ownership id body) w =
    answer-ByCaller user (λ c. c.0.0) 204 _ _ w (id-Passing _ user id _)
      (λ c. transfer_ownership-Steps w.db c.0.0 c.0.1 c.1)
handle-ByCaller user (Call.create_task id clock body) w =
    answer-ByCaller user (λ c. c.0) 201 _ _ w (body-Passing user _)
      (λ c. create_task-Steps w.db id clock c.0 c.1)
handle-ByCaller user (Call.list_tasks codec like now cached params) w =
    answer-ByCaller user (λ c. c.0) 200 _ _ w (body-Passing user _)
      (λ c. list_tasks-Steps w.db codec like now cached c.0 c.1)
handle-ByCaller user (Call.get_task id) w =
    answer-ByCaller user (λ c. c.0) 200 _ _ w (caller_and-Passing _ user id)
      (λ c. get_task-Steps w.db c.0 c.1)
handle-ByCaller user (Call.delete_task id) w =
    answer-ByCaller user (λ c. c.0) 204 _ _ w (caller_and-Passing _ user id)
      (λ c. delete_task-Steps w.db c.0 c.1)
handle-ByCaller user (Call.update_task closing clock id body) w =
    answer-ByCaller user (λ c. c.0.0) 200 _ _ w (id-Passing _ user id _)
      (λ c. update_task-Steps w.db closing clock c.0.0 c.0.1 c.1)
handle-ByCaller user (Call.get_history id) w =
    answer-ByCaller user (λ c. c.0) 200 _ _ w (caller_and-Passing _ user id)
      (λ c. get_history-Steps w.db c.0 c.1)
handle-ByCaller user (Call.add_comment new clock id body) w =
    answer-ByCaller user (λ c. c.0.0) 201 _ _ w (id-Passing _ user id _)
      (λ c. add_comment-Steps w.db new clock c.0.0 c.0.1 c.1)
handle-ByCaller user (Call.list_comments id) w =
    answer-ByCaller user (λ c. c.0) 200 _ _ w (caller_and-Passing _ user id)
      (λ c. list_comments-Steps w.db c.0 c.1)
handle-ByCaller user (Call.edit_comment clock id comment body) w =
    answer-ByCaller user (λ c. c.0.0) 200 _ _ w (two-Passing _ user id _ _)
      (λ c. edit_comment-Steps w.db clock c.0.0 c.0.1 c.1 c.2)
handle-ByCaller user (Call.delete_comment id comment) w =
    answer-ByCaller user (λ c. c.0.0) 204 _ _ w (id-Passing _ user id _)
      (λ c. delete_comment-Steps w.db c.0.0 c.0.1 c.1)

-- A call to any route of teams or tasks for which the middleware has left no caller is answered with
-- 401, and nothing is read or changed.
pub handle-anonymous : (call : Call) (w : World) → handle none call w ≡ (401, w)
unfolding handle Team.create Team.list Team.invite Team.list_members Team.change_member_role
    Team.remove_member Team.get_stats Team.get Team.rename Team.delete Team.leave
    Team.transfer_ownership Task.create Task.list_by_team Task.get Task.delete Task.update
    Task.get_history Task.add_comment Task.list_comments Task.edit_comment Task.delete_comment
    answer caller_and current_user ◌>>=◌ error_handler to_response
handle-anonymous (Call.create_team id now body) w = refl
handle-anonymous Call.list_teams w = refl
handle-anonymous (Call.invite id body) w = refl
handle-anonymous (Call.list_members id) w = refl
handle-anonymous (Call.change_member_role id target body) w = refl
handle-anonymous (Call.remove_member now id target) w = refl
handle-anonymous (Call.get_stats name_first now id) w = refl
handle-anonymous (Call.get_team id) w = refl
handle-anonymous (Call.rename_team id body) w = refl
handle-anonymous (Call.delete_team id) w = refl
handle-anonymous (Call.leave_team now id) w = refl
handle-anonymous (Call.transfer_ownership id body) w = refl
handle-anonymous (Call.create_task id clock body) w = refl
handle-anonymous (Call.list_tasks codec like now cached params) w = refl
handle-anonymous (Call.get_task id) w = refl
handle-anonymous (Call.delete_task id) w = refl
handle-anonymous (Call.update_task closing clock id body) w = refl
handle-anonymous (Call.get_history id) w = refl
handle-anonymous (Call.add_comment new clock id body) w = refl
handle-anonymous (Call.list_comments id) w = refl
handle-anonymous (Call.edit_comment clock id comment body) w = refl
handle-anonymous (Call.delete_comment id comment) w = refl
