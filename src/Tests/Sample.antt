-- ===== src/Tests/Sample.antt =====
-- Tables to run the services on: a team 7 of an owner 1, an admin 2 and a member 3, to whom task 5
-- is assigned, and a user 4 outside the team.
use task_management.Base.{ℕ, Bool, false, none, some, List, [], ◌∷◌, str_eq}
use task_management.Domain.Team.{Role, owner, admin, member, User, TeamMember, InviteMemberRequest}
use task_management.Domain.Task.{
  Task, todo, medium, TaskStatus, Nullable, CreateTaskRequest, UpdateTaskRequest,
}
use task_management.Database.Tables.{Db}
use task_management.Database.Tx.{World}
use task_management.Service.Requests.{Request}

abbrev pub user : ℕ → User
user i = record { id = i; email = ""; password_hash = "hpw"; name = ""; created_at = 0 }

abbrev pub people : List User
people = user 1 ∷ user 2 ∷ user 3 ∷ user 4 ∷ []

abbrev pub quiet : ℕ → Bool
quiet n = false

abbrev place_in : ℕ → Role → TeamMember
place_in u r = record { team_id = 7; user_id = u; role = r }

abbrev pub members : List TeamMember
members = place_in 1 owner ∷ place_in 2 admin ∷ place_in 3 member ∷ []

abbrev pub ticket : Task
ticket = record {
  id = 5;
  team_id = 7;
  title = "fix";
  description = "";
  status = todo;
  priority = medium;
  due_at = none;
  created_by = 1;
  assignee_id = some 3;
  created_at = 0;
  updated_at = 0;
  closed_at = none;
  version = 1;
}

abbrev pub tables : Db
tables = record {
  users = people;
  teams = record { id = 7; name = "core"; created_by = 1; created_at = 0 } ∷ [];
  members = members;
  tasks = ticket ∷ [];
  history = [];
  comments = [];
  next_history = 1;
  same_email = str_eq;
}

abbrev pub world : World
world = record { db = tables; invalidated = []; down = quiet; requests = 0 }

abbrev pub invitation : InviteMemberRequest
invitation = record { user_id = 4; email = ""; role = Role.other "" }

abbrev pub new_ticket : CreateTaskRequest
new_ticket = record {
  team_id = 7;
  title = " write ";
  description = "";
  assignee_id = some 2;
  priority = none;
  due_at = none;
}

abbrev pub finished : UpdateTaskRequest
finished = record {
  title = none;
  description = none;
  status = some TaskStatus.done;
  assignee_id = none;
  priority = none;
  due_at = Nullable.omitted;
  version = 1;
}

-- A team is made, grows, works on a task, changes hands, and loses its founder.
abbrev pub story : List Request
story =
    Request.create_team_req 7 0 1 " core "
    ∷ Request.invite_member_req 1 7 invitation
    ∷ Request.create_task_req 5 8 4 (record new_ticket { assignee_id = some 1 })
    ∷ Request.update_task_req 9 9 1 5 finished
    ∷ Request.transfer_ownership_req 1 7 4
    ∷ Request.remove_member_req 10 4 7 1
    ∷ []
