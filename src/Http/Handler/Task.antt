-- ===== src/Http/Handler/Task.antt =====
-- internal/server/http/handler/task.go
use task_management.Base.{ℕ, String, Bool, Option, List}
use task_management.Domain.Task.{Task, CreateTaskRequest, UpdateTaskRequest, TaskHistory}
use task_management.Domain.Listing.{TaskListQuery, TaskListResponse, Codec}
use task_management.Repository.Comment.{CommentView}
use task_management.Service.Task as Service
use task_management.Service.Task.Listing.{list_tasks}
use task_management.Http.Response.{Bound, current_user, path_uuid}
use task_management.Http.Handler.Flow.{
  checked, passed, ◌>>=◌, bind_json, bind_query, answer, caller_and,
}
use task_management.Http.Handler.Team.{Served, bad_id}

abbrev pub bad_comment_id : String
bad_comment_id = "commentID must be a valid UUID"

unfoldable pub create : ℕ → ℕ → Option ℕ → Bound CreateTaskRequest → Served Task
create id clock user body =
    answer {A = ℕ × CreateTaskRequest} 201
      (checked (current_user user) >>= λ u. bind_json body >>= λ req. passed (u, req))
      λ c. Service.create_task id clock c.0 c.1

-- The cached page is what the cache answers.
unfoldable pub list_by_team :
    Codec
    → (String → String → Bool)
    → ℕ
    → Option TaskListResponse
    → Option ℕ
    → Bound TaskListQuery
    → Served TaskListResponse
list_by_team codec like now cached user params =
    answer {A = ℕ × TaskListQuery} 200
      (checked (current_user user) >>= λ u. bind_query params >>= λ q. passed (u, q))
      λ c. list_tasks codec like now cached c.0 c.1

unfoldable pub get : Option ℕ → Option ℕ → Served Task
get user id = answer 200 (caller_and bad_id user id) λ c. Service.get_task c.0 c.1

unfoldable pub delete : Option ℕ → Option ℕ → Served (Unit {0})
delete user id = answer 204 (caller_and bad_id user id) λ c. Service.delete_task c.0 c.1

unfoldable pub update : ℕ → ℕ → Option ℕ → Option ℕ → Bound UpdateTaskRequest → Served Task
update closing clock user id body =
    answer {A = (ℕ × ℕ) × UpdateTaskRequest} 200
      (caller_and bad_id user id >>= λ c. bind_json body >>= λ req. passed (c, req))
      λ c. Service.update_task closing clock c.0.0 c.0.1 c.1

unfoldable pub get_history : Option ℕ → Option ℕ → Served (List TaskHistory)
get_history user id = answer 200 (caller_and bad_id user id) λ c. Service.get_history c.0 c.1

unfoldable pub add_comment : ℕ → ℕ → Option ℕ → Option ℕ → Bound String → Served CommentView
add_comment new clock user id body =
    answer {A = (ℕ × ℕ) × String} 201
      (caller_and bad_id user id >>= λ c. bind_json body >>= λ text. passed (c, text))
      λ c. Service.add_comment new clock c.0.0 c.0.1 c.1

unfoldable pub list_comments : Option ℕ → Option ℕ → Served (List CommentView)
list_comments user id = answer 200 (caller_and bad_id user id) λ c. Service.list_comments c.0 c.1

unfoldable pub edit_comment : ℕ → Option ℕ → Option ℕ → Option ℕ → Bound String → Served CommentView
edit_comment clock user id comment body =
    answer {A = (ℕ × ℕ) × ℕ × String} 200
      (caller_and bad_id user id >>= λ c. checked (path_uuid bad_comment_id comment) >>= λ i.
        bind_json body >>= λ text. passed (c, i, text))
      λ c. Service.edit_comment clock c.0.0 c.0.1 c.1 c.2

unfoldable pub delete_comment : Option ℕ → Option ℕ → Option ℕ → Served (Unit {0})
delete_comment user id comment =
    answer {A = (ℕ × ℕ) × ℕ} 204
      (caller_and bad_id user id >>= λ c.
        checked (path_uuid bad_comment_id comment) >>= λ i. passed (c, i))
      λ c. Service.delete_comment c.0.0 c.0.1 c.1
