-- ===== src/Repository/Team.antt =====
-- internal/repository/team.go; the report of GetStats is in Stats. MySQL reports the rows that an
-- UPDATE changed, not those that it matched (the DSN of pkg/database/mysql.go asks for no more).
pub mod Rules
pub mod Stats
use task_management.Base.{
  ℕ, String, Bool, false, not, Option, none, some, List, [], ◌∷◌, ◌++◌, ◌&&◌, ◌||◌, ◌==◌,
  if◌then◌else◌, is_some, leb,
}
use task_management.Domain.Errors.{domain, plain, Result, ok, err, already_exists, not_found}
use task_management.Domain.Team.{
  Role, role_eq, User, Team, TeamView, TeamMember, TeamMemberResponse,
}
use task_management.Database.Tables.{
  Db, find_user, find_team, role_of, drop_team, drop_team_members, drop_team_tasks, in_team,
  drop_history, drop_comments,
}
use task_management.Database.Tx.{Action, query, exec}

-- The primary key and the foreign key to the creator make the driver fail.
unfoldable pub create : Team → Action (Unit {0})
create t = exec "teamRepo.Create" λ b.
    if is_some (find_team t.id b.teams) || not (is_some (find_user t.created_by b.users))
    then err (plain "teamRepo.Create")
    else ok (tt, record b { teams = t ∷ b.teams })

-- ORDER BY created_at DESC, id DESC
abbrev before : TeamView → TeamView → Bool
before v u =
    not (leb v.team.created_at u.team.created_at)
    || (v.team.created_at == u.team.created_at && leb u.team.id v.team.id)

abbrev place : TeamView → List TeamView → List TeamView
place v [] = v ∷ []
place v (u ∷ us) = let rest = place v us in if before v u then v ∷ u ∷ us else u ∷ rest

abbrev join_role : Team → Option Role → List TeamView → List TeamView
join_role t none vs = vs
join_role t (some r) vs = place (record { team = t; role = r }) vs

abbrev teams_of : ℕ → List TeamMember → List Team → List TeamView
teams_of u ms [] = []
teams_of u ms (t ∷ ts) = join_role t (role_of t.id u ms) (teams_of u ms ts)

unfoldable pub list_by_user : ℕ → Action (List TeamView)
list_by_user u = query "teamRepo.ListByUser" λ b. ok (teams_of u b.members b.teams)

abbrev pub found_team : Option Team → Result Team
found_team none = err (domain not_found "team not found")
found_team (some t) = ok t

unfoldable pub get_by_id : ℕ → Action Team
get_by_id id = query "teamRepo.GetByID" λ b. found_team (find_team id b.teams)

abbrev pub set_team_name : ℕ → String → List Team → List Team
set_team_name id name [] = []
set_team_name id name (t ∷ ts) =
    (if t.id == id then record t { name = name } else t) ∷ set_team_name id name ts

unfoldable pub rename : ℕ → String → Action (Unit {0})
rename id name =
    exec "teamRepo.Rename" λ b. ok (tt, record b { teams = set_team_name id name b.teams })

-- DELETE FROM teams, with the cascades of the foreign keys.
abbrev pub without_team : ℕ → Db → Db
without_team t b = record b {
  teams = drop_team t b.teams;
  members = drop_team_members t b.members;
  tasks = drop_team_tasks t b.tasks;
  history = drop_history (λ x. in_team t x b.tasks) b.history;
  comments = drop_comments (λ x. in_team t x b.tasks) b.comments;
}

unfoldable pub delete : ℕ → Action (Unit {0})
delete id = exec "teamRepo.Delete" λ b.
    if is_some (find_team id b.teams)
    then ok (tt, without_team id b)
    else err (domain not_found "team not found")

unfoldable pub add_member : TeamMember → Action (Unit {0})
add_member m = exec "teamRepo.AddMember" λ b.
    if is_some (role_of m.team_id m.user_id b.members)
    then err (domain already_exists "user is already a member of this team")
    else if is_some (find_team m.team_id b.teams) && is_some (find_user m.user_id b.users)
    then ok (tt, record b { members = m ∷ b.members })
    else err (domain not_found "team or user not found")

abbrev pub found_role : Option Role → Result Role
found_role none = err (domain not_found "user is not a member of this team")
found_role (some r) = ok r

unfoldable pub get_member_role : ℕ → ℕ → Action Role
get_member_role t u = query "teamRepo.getRole" λ b. found_role (role_of t u b.members)

-- The row lock does not show where requests run one after another.
unfoldable pub get_member_role_for_update : ℕ → ℕ → Action Role
get_member_role_for_update t u = query "teamRepo.getRole" λ b. found_role (role_of t u b.members)

unfoldable pub is_member : ℕ → ℕ → Action Bool
is_member t u = query "teamRepo.IsMember" λ b. ok (is_some (role_of t u b.members))

abbrev pub set_role : ℕ → ℕ → Role → List TeamMember → List TeamMember
set_role t u r [] = []
set_role t u r (m ∷ ms) =
    (if m.team_id == t && m.user_id == u then record m { role = r } else m) ∷ set_role t u r ms

abbrev pub drop_member : ℕ → ℕ → List TeamMember → List TeamMember
drop_member t u [] = []
drop_member t u (m ∷ ms) =
    let rest = drop_member t u ms in if m.team_id == t && m.user_id == u then rest else m ∷ rest

-- Does the UPDATE change the row that it finds?
abbrev pub changes_role : Role → Option Role → Bool
changes_role r none = false
changes_role r (some old) = not (role_eq old r)

unfoldable pub update_member_role : ℕ → ℕ → Role → Action (Unit {0})
update_member_role t u r = exec "teamRepo.UpdateMemberRole" λ b.
    if changes_role r (role_of t u b.members)
    then ok (tt, record b { members = set_role t u r b.members })
    else err (domain not_found "member not found")

unfoldable pub remove_member : ℕ → ℕ → Action (Unit {0})
remove_member t u = exec "teamRepo.RemoveMember" λ b.
    if is_some (role_of t u b.members)
    then ok (tt, record b { members = drop_member t u b.members })
    else err (domain not_found "member not found")

abbrev respond : TeamMember → Option User → List TeamMemberResponse → List TeamMemberResponse
respond m none rest = rest
respond m (some u) rest =
    record { user_id = u.id; email = u.email; name = u.name; role = m.role } ∷ rest

-- JOIN users ON u.id = tm.user_id WHERE tm.team_id = t AND tm.role = r
abbrev members_with : ℕ → Role → List User → List TeamMember → List TeamMemberResponse
members_with t r us [] = []
members_with t r us (m ∷ ms) =
    let rest = members_with t r us ms in
    if m.team_id == t && role_eq m.role r then respond m (find_user m.user_id us) rest else rest

-- ORDER BY FIELD(tm.role, 'owner', 'admin', 'member'); the order by name within a role is the
-- server's collation, and is not modelled.
unfoldable pub list_members : ℕ → Action (List TeamMemberResponse)
list_members t = query "teamRepo.ListMembers" λ b. ok (
    members_with t Role.owner b.users b.members
    ++ members_with t Role.admin b.users b.members
    ++ members_with t Role.member b.users b.members)
