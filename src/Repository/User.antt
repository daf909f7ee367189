-- ===== src/Repository/User.antt =====
-- internal/repository/user.go
pub mod Rules
use task_management.Base.{
  ℕ, String, Option, none, some, List, [], ◌∷◌, ◌||◌, ◌==◌, if◌then◌else◌, is_some,
}
use task_management.Domain.Errors.{domain, Result, ok, err, already_exists, not_found}
use task_management.Domain.Team.{User}
use task_management.Database.Tables.{find_user, find_email}
use task_management.Database.Tx.{Action, query, exec}

abbrev pub found_user : Option User → Result User
found_user none = err (domain not_found "user not found")
found_user (some u) = ok u

-- The index on the email and the primary key refuse a second row.
unfoldable pub create : User → Action (Unit {0})
create u = exec "userRepo.Create" λ b.
    if is_some (find_email b.same_email u.email b.users) || is_some (find_user u.id b.users)
    then err (domain already_exists "a user with this email already exists")
    else ok (tt, record b { users = u ∷ b.users })

unfoldable pub get_by_email : String → Action User
get_by_email email = query "userRepo.get" λ b. found_user (find_email b.same_email email b.users)

unfoldable pub get_by_id : ℕ → Action User
get_by_id id = query "userRepo.get" λ b. found_user (find_user id b.users)

abbrev set_name : ℕ → String → List User → List User
set_name id name [] = []
set_name id name (u ∷ us) =
    (if u.id == id then record u { name = name } else u) ∷ set_name id name us

abbrev pub set_password_hash : ℕ → String → List User → List User
set_password_hash id hash [] = []
set_password_hash id hash (u ∷ us) =
    (if u.id == id then record u { password_hash = hash } else u) ∷ set_password_hash id hash us

-- No row to change is no error.
unfoldable pub update_name : ℕ → String → Action (Unit {0})
update_name id name =
    exec "userRepo.update" λ b. ok (tt, record b { users = set_name id name b.users })

unfoldable pub update_password_hash : ℕ → String → Action (Unit {0})
update_password_hash id hash =
    exec "userRepo.update" λ b. ok (tt, record b { users = set_password_hash id hash b.users })
