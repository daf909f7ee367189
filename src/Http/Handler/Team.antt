-- ===== src/Http/Handler/Team.antt =====
-- internal/server/http/handler/team.go
use task_management.Base.{ℕ, String, Bool, Option, List}
use task_management.Domain.Team.{
  Role, TeamView, TeamMember, TeamMemberResponse, InviteMemberRequest,
}
use task_management.Domain.Stats.{TeamStats}
use task_management.Database.Tx.{World}
use task_management.Service.Team as Service
use task_management.Http.Response.{Reply, Bound, current_user, path_uuid}
use task_management.Http.Handler.Flow.{checked, passed, ◌>>=◌, bind_json, Body, answer, caller_and}

abbrev pub bad_id : String
bad_id = "id must be a valid UUID"

abbrev pub bad_user_id : String
bad_user_id = "userID must be a valid UUID"

abbrev pub Served : Type 0 → Type 0
Served A = World → Reply (Body A) × World

unfoldable pub create : ℕ → ℕ → Option ℕ → Bound String → Served TeamView
create id now user body =
    answer {A = ℕ × String} 201
      (checked (current_user user) >>= λ u. bind_json body >>= λ name. passed (u, name))
      λ c. Service.create_team id now c.0 c.1

unfoldable pub list : Option ℕ → Served (List TeamView)
list user = answer 200 (checked (current_user user)) λ u. Service.list_teams u

unfoldable pub invite : Option ℕ → Option ℕ → Bound InviteMemberRequest → Served TeamMember
invite user id body =
    answer {A = (ℕ × ℕ) × InviteMemberRequest} 201
      (caller_and bad_id user id >>= λ c. bind_json body >>= λ req. passed (c, req))
      λ c. Service.invite_member c.0.0 c.0.1 c.1

unfoldable pub list_members : Option ℕ → Option ℕ → Served (List TeamMemberResponse)
list_members user id = answer 200 (caller_and bad_id user id) λ c. Service.list_members c.0 c.1

unfoldable pub change_member_role : Option ℕ → Option ℕ → Option ℕ → Bound Role → Served (Unit {0})
change_member_role user id target body =
    answer {A = (ℕ × ℕ) × ℕ × Role} 204
      (caller_and bad_id user id >>= λ c. checked (path_uuid bad_user_id target) >>= λ t.
        bind_json body >>= λ role. passed (c, t, role))
      λ c. Service.change_member_role c.0.0 c.0.1 c.1 c.2

unfoldable pub remove_member : ℕ → Option ℕ → Option ℕ → Option ℕ → Served (Unit {0})
remove_member now user id target =
    answer {A = (ℕ × ℕ) × ℕ} 204
      (caller_and bad_id user id >>= λ c.
        checked (path_uuid bad_user_id target) >>= λ t. passed (c, t))
      λ c. Service.remove_member now c.0.0 c.0.1 c.1

unfoldable pub get_stats : (String → String → Bool) → ℕ → Option ℕ → Option ℕ → Served TeamStats
get_stats name_first now user id =
    answer 200 (caller_and bad_id user id) λ c. Service.get_stats name_first now c.0 c.1

unfoldable pub get : Option ℕ → Option ℕ → Served TeamView
get user id = answer 200 (caller_and bad_id user id) λ c. Service.get_team c.0 c.1

unfoldable pub rename : Option ℕ → Option ℕ → Bound String → Served TeamView
rename user id body =
    answer {A = (ℕ × ℕ) × String} 200
      (caller_and bad_id user id >>= λ c. bind_json body >>= λ name. passed (c, name))
      λ c. Service.rename_team c.0.0 c.0.1 c.1

unfoldable pub delete : Option ℕ → Option ℕ → Served (Unit {0})
delete user id = answer 204 (caller_and bad_id user id) λ c. Service.delete_team c.0 c.1

unfoldable pub leave : ℕ → Option ℕ → Option ℕ → Served (Unit {0})
leave now user id = answer 204 (caller_and bad_id user id) λ c. Service.leave_team now c.0 c.1

unfoldable pub transfer_ownership : Option ℕ → Option ℕ → Bound ℕ → Served (Unit {0})
transfer_ownership user id body =
    answer {A = (ℕ × ℕ) × ℕ} 204
      (caller_and bad_id user id >>= λ c. bind_json body >>= λ heir. passed (c, heir))
      λ c. Service.transfer_ownership c.0.0 c.0.1 c.1
