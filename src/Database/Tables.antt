-- ===== src/Database/Tables.antt =====
-- The tables of migrations/*.up.sql, as lists of rows, and what a statement's WHERE clause picks.
use task_management.Base.{
  ℕ, String, Bool, false, Option, none, some, List, [], ◌∷◌, ◌&&◌, ◌||◌, ◌==◌, if◌then◌else◌,
}
use task_management.Domain.Team.{User, Team, TeamMember, Role}
use task_management.Domain.Task.{Task, TaskHistory, TaskComment}

pub record Db : Type 0 where
  pub users : List User
  pub teams : List Team
  pub members : List TeamMember
  pub tasks : List Task
  pub history : List TaskHistory
  pub comments : List TaskComment
  -- AUTO_INCREMENT of task_history
  pub next_history : ℕ
  -- The collation of the column `users.email`: does the server take two texts for the same? That of
  -- MySQL ignores case and accents; here it may be any test.
  pub same_email : String → String → Bool

-- WHERE id = ?, a primary key
abbrev pub find_user : ℕ → List User → Option User
find_user u [] = none
find_user u (x ∷ xs) = if x.id == u then some x else find_user u xs

-- WHERE email = ?, a unique key, under a collation
abbrev pub find_email : (String → String → Bool) → String → List User → Option User
find_email same e [] = none
find_email same e (x ∷ xs) = if same x.email e then some x else find_email same e xs

abbrev pub find_team : ℕ → List Team → Option Team
find_team t [] = none
find_team t (x ∷ xs) = if x.id == t then some x else find_team t xs

-- SELECT role FROM team_members WHERE team_id = ? AND user_id = ?, the primary key
abbrev pub role_of : ℕ → ℕ → List TeamMember → Option Role
role_of t u [] = none
role_of t u (m ∷ ms) = if m.team_id == t && m.user_id == u then some m.role else role_of t u ms

abbrev pub find_task : ℕ → List Task → Option Task
find_task id [] = none
find_task id (x ∷ xs) = if x.id == id then some x else find_task id xs

abbrev pub find_comment : ℕ → ℕ → List TaskComment → Option TaskComment
find_comment task id [] = none
find_comment task id (c ∷ cs) =
    if c.id == id && c.task_id == task then some c else find_comment task id cs

-- DELETE FROM team_members WHERE team_id = ?
abbrev pub drop_team_members : ℕ → List TeamMember → List TeamMember
drop_team_members t [] = []
drop_team_members t (m ∷ ms) =
    let rest = drop_team_members t ms in if m.team_id == t then rest else m ∷ rest

abbrev pub drop_team_tasks : ℕ → List Task → List Task
drop_team_tasks t [] = []
drop_team_tasks t (x ∷ xs) =
    let rest = drop_team_tasks t xs in if x.team_id == t then rest else x ∷ rest

abbrev pub drop_team : ℕ → List Team → List Team
drop_team t [] = []
drop_team t (x ∷ xs) = let rest = drop_team t xs in if x.id == t then rest else x ∷ rest

abbrev pub drop_task : ℕ → List Task → List Task
drop_task id [] = []
drop_task id (x ∷ xs) = let rest = drop_task id xs in if x.id == id then rest else x ∷ rest

-- Does the task belong to the team?
abbrev pub in_team : ℕ → ℕ → List Task → Bool
in_team t id [] = false
in_team t id (x ∷ xs) = (x.id == id && x.team_id == t) || in_team t id xs

-- ON DELETE CASCADE from a task to its history and comments
abbrev pub drop_history : (ℕ → Bool) → List TaskHistory → List TaskHistory
drop_history gone [] = []
drop_history gone (h ∷ hs) =
    let rest = drop_history gone hs in if gone h.task_id then rest else h ∷ rest

abbrev pub drop_comments : (ℕ → Bool) → List TaskComment → List TaskComment
drop_comments gone [] = []
drop_comments gone (c ∷ cs) =
    let rest = drop_comments gone cs in if gone c.task_id then rest else c ∷ rest
