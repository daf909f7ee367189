-- ===== src/Service/Team/Spec.antt =====
-- What the team service promises, apart from how it is coded: the changes that an actor's role
-- entitles him to, as a step relation on the tables.
use task_management.Base.{ℕ, String, true, none, some, ◌∷◌, ◌≡◌, ◌≢◌, ◌⊎◌, none, is_some}
use task_management.Domain.Team.{Role, owner, admin, member, Team}
use task_management.Database.Tables.{Db, find_team, role_of}
use task_management.Repository.Team.{set_role, drop_member, set_team_name, without_team}
use task_management.Repository.Task.{record_unassigned, unassign_rows}

-- A manager stands above members; the owner stands above admins too; nobody above the owner.
abbrev pub Outranks : Role → Role → Type 0
Outranks owner target = target ≢ owner
Outranks admin target = (target ≢ owner) × (target ≢ admin)
Outranks _ _ = ⊥

abbrev pub Manages : Role → Type 0
Manages r = (r ≡ owner) ⊎ (r ≡ admin)

-- The roles that can be granted.
abbrev pub Grantable : Role → Type 0
Grantable r = (r ≡ admin) ⊎ (r ≡ member)

abbrev pub founded : ℕ → Team → Db → Db
founded actor t b = record b {
  teams = t ∷ b.teams;
  members = record { team_id = t.id; user_id = actor; role = owner } ∷ b.members;
}

abbrev pub joined : ℕ → ℕ → Role → Db → Db
joined t u r b = record b { members = record { team_id = t; user_id = u; role = r } ∷ b.members }

abbrev pub ranked : ℕ → ℕ → Role → Db → Db
ranked t u r b = record b { members = set_role t u r b.members }

-- Gone from the team, his tasks recorded as unassigned by `by`, and unassigned.
abbrev pub departed : ℕ → ℕ → ℕ → ℕ → Db → Db
departed now by t u b =
    let b' : Db = record b { members = drop_member t u b.members } in
    let b'' : Db = record_unassigned b'.tasks t u by now b' in
    record b'' { tasks = unassign_rows t u now b''.tasks }

pub data TeamStep (actor : ℕ) (b : Db) : Db → Type 0 where
  creates :
      (t : Team)
      → find_team t.id b.teams ≡ none
      → role_of t.id actor b.members ≡ none
      → TeamStep actor b (founded actor t b)
  renames :
      (t : ℕ) (name : String) (r : Role)
      → role_of t actor b.members ≡ some r
      → Manages r
      → TeamStep actor b (record b { teams = set_team_name t name b.teams })
  invites :
      (t u : ℕ) (r new : Role)
      → role_of t actor b.members ≡ some r
      → Manages r
      → Grantable new
      → u ≢ actor
      → role_of t u b.members ≡ none
      → is_some (find_team t b.teams) ≡ true
      → TeamStep actor b (joined t u new b)
  changes_role :
      (t u : ℕ) (r old new : Role)
      → role_of t actor b.members ≡ some r
      → role_of t u b.members ≡ some old
      → u ≢ actor
      → Outranks r old
      → Grantable new
      → TeamStep actor b (ranked t u new b)
  removes :
      (now t u : ℕ) (r old : Role)
      → role_of t actor b.members ≡ some r
      → role_of t u b.members ≡ some old
      → u ≢ actor
      → Outranks r old
      → TeamStep actor b (departed now actor t u b)
  leaves :
      (now t : ℕ) (r : Role)
      → role_of t actor b.members ≡ some r
      → r ≢ owner
      → TeamStep actor b (departed now actor t actor b)
  transfers :
      (t u : ℕ) (r : Role)
      → role_of t actor b.members ≡ some owner
      → role_of t u b.members ≡ some r
      → u ≢ actor
      → TeamStep actor b (ranked t actor admin (ranked t u owner b))
  deletes : (t : ℕ) → role_of t actor b.members ≡ some owner → TeamStep actor b (without_team t b)
