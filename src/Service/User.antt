-- ===== src/Service/User.antt =====
-- internal/service/user.go
pub mod Passwords
use task_management.Base.{ℕ, String, Bool, true, false}
use task_management.Domain.Errors.{domain, Result, ok, err, invalid_credentials}
use task_management.Domain.Team.{User}
use task_management.Domain.Text.{trim_space}
use task_management.Database.Tx.{Action, lift, ◌>>=◌, ◌>>◌}
use task_management.Repository.User
use task_management.Service.Account.{Crypto}

unfoldable pub me : ℕ → Action User
me user_id = User.get_by_id user_id

unfoldable pub update_profile : ℕ → String → Action User
update_profile user_id name = do User.update_name user_id (trim_space name); User.get_by_id user_id

abbrev pub require_match : Bool → Result (Unit {0})
require_match true = ok tt
require_match false = err (domain invalid_credentials "current password is incorrect")

unfoldable pub change_password : Crypto → ℕ → ℕ → String → String → Action (Unit {0})
change_password crypto salt user_id current_password new_password = do
  user ← User.get_by_id user_id
  lift (require_match (crypto.compare user.password_hash current_password))
  hash ← lift (crypto.hash salt new_password)
  User.update_password_hash user_id hash
