-- ===== src/Http/Handler/User.antt =====
-- internal/server/http/handler/user.go
use task_management.Base.{ℕ, String, Option}
use task_management.Domain.Team.{User}
use task_management.Database.Tx.{Action, pure, ◌>>=◌}
use task_management.Service.Account.{Crypto}
use task_management.Service.User as Service
use task_management.Http.Response.{Bound, current_user}
use task_management.Http.Handler.Flow.{checked, passed, ◌>>=◌ as ◌>>>◌, bind_json, answer}
use task_management.Http.Handler.Session.{UserResponse, response}
use task_management.Http.Handler.Team.{Served}

pub record ChangePasswordRequest : Type 0 where
  pub current_password : String
  pub new_password : String

abbrev pub responded : Action User → Action UserResponse
responded m = m >>= λ u. pure (response u)

unfoldable pub me : Option ℕ → Served UserResponse
me user = answer 200 (checked (current_user user)) λ u. responded (Service.me u)

unfoldable pub update_profile : Option ℕ → Bound String → Served UserResponse
update_profile user body =
    answer {A = ℕ × String} 200
      (checked (current_user user) >>> λ u. bind_json body >>> λ name. passed (u, name))
      λ c. responded (Service.update_profile c.0 c.1)

unfoldable pub change_password :
    Crypto → ℕ → Option ℕ → Bound ChangePasswordRequest → Served (Unit {0})
change_password crypto salt user body =
    answer {A = ℕ × ChangePasswordRequest} 204
      (checked (current_user user) >>> λ u. bind_json body >>> λ req. passed (u, req))
      λ c. Service.change_password crypto salt c.0 c.1.current_password c.1.new_password
