-- ===== src/Domain/Team.antt =====
-- internal/domain/team.go and user.go. A UUID is a number, since it is only compared and ordered;
-- 0 stands for the empty string.
use task_management.Base.{ℕ, String, Bool, true, false, ◌||◌, str_eq}

-- A role is a string in the source: the three constants, and any other text.
pub data Role : Type 0 where
  owner admin member : Role
  other : String → Role

abbrev pub role_eq : Role → Role → Bool
role_eq owner owner = true
role_eq admin admin = true
role_eq member member = true
role_eq (other s) (other t) = str_eq s t
role_eq _ _ = false

abbrev pub is_manager : Role → Bool
is_manager r = role_eq r owner || role_eq r admin

pub record User : Type 0 where
  pub id : ℕ
  pub email : String
  pub password_hash : String
  pub name : String
  pub created_at : ℕ

-- `Team.Role` is no column: it is filled in on the way out, and stands in `TeamView`.
pub record Team : Type 0 where
  pub id : ℕ
  pub name : String
  pub created_by : ℕ
  pub created_at : ℕ

pub record TeamView : Type 0 where
  pub team : Team
  pub role : Role

pub record TeamMember : Type 0 where
  pub team_id : ℕ
  pub user_id : ℕ
  pub role : Role

-- `Email == ""` and `Role == ""` are tested by the service.
pub record InviteMemberRequest : Type 0 where
  pub user_id : ℕ
  pub email : String
  pub role : Role

pub record TeamMemberResponse : Type 0 where
  pub user_id : ℕ
  pub email : String
  pub name : String
  pub role : Role
