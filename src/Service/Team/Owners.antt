-- ===== src/Service/Team/Owners.antt =====
-- Counting the owners of a team through the updates of the membership table.
use task_management.Base.{
  ℕ, Bool, none, some, List, [], ◌∷◌, ◌+◌, ◌≤◌, ◌≡◌, ◌≢◌, refl, ◌&&◌, arith, ◌==◌, if◌then◌else◌,
}
use task_management.Domain.Team.{Role, owner, role_eq, TeamMember}
use task_management.Database.Tables.{role_of, drop_team_members}
use task_management.Repository.Team.{set_role, drop_member}

abbrev pub one_if : Bool → ℕ
one_if b = if b then 1 else 0

abbrev pub is_owner : Role → Bool
is_owner r = role_eq r owner

abbrev pub owners : ℕ → List TeamMember → ℕ
owners t [] = 0
owners t (m ∷ ms) = one_if (m.team_id == t && is_owner m.role) + owners t ms

-- The primary key (team_id, user_id).
abbrev pub IsKeyed : List TeamMember → Type 0
IsKeyed [] = Unit
IsKeyed (m ∷ ms) = (role_of m.team_id m.user_id ms ≡ none) × IsKeyed ms

module _ (t u : ℕ) (r : Role) where
  pub set_role-absent : (ms : List TeamMember) → role_of t u ms ≡ none → set_role t u r ms ≡ ms
  set_role-absent [] h = refl
  set_role-absent (m ∷ ms) h = ground (arith, set_role-absent ms)

  pub role_of-set_role-none :
      (t' u' : ℕ) (ms : List TeamMember)
      → role_of t' u' ms ≡ none
      → role_of t' u' (set_role t u r ms) ≡ none
  role_of-set_role-none t' u' [] h = refl
  role_of-set_role-none t' u' (m ∷ ms) h = ground (arith, role_of-set_role-none t' u' ms)

  pub role_of-set_role_ne :
      (u' : ℕ) (ms : List TeamMember) → u' ≢ u → role_of t u' (set_role t u r ms) ≡ role_of t u' ms
  role_of-set_role_ne u' [] h = refl
  role_of-set_role_ne u' (m ∷ ms) h = ground (arith, role_of-set_role_ne u' ms h)

  pub set_role-IsKeyed : (ms : List TeamMember) → IsKeyed ms → IsKeyed (set_role t u r ms)
  set_role-IsKeyed [] k = tt
  set_role-IsKeyed (m ∷ ms) k =
      ground (arith, set_role-IsKeyed ms k.1, role_of-set_role-none m.team_id m.user_id ms k.0)

  -- The count moves by what the one row was and what it is now.
  pub owners-set_role :
      (old : Role) (ms : List TeamMember)
      → IsKeyed ms
      → role_of t u ms ≡ some old
      → owners t (set_role t u r ms) + one_if (is_owner old) ≡ owners t ms + one_if (is_owner r)
  owners-set_role old [] k h = cc
  owners-set_role old (m ∷ ms) k h = ground (arith, owners-set_role old ms k.1, set_role-absent ms)

  pub owners-set_role_ne :
      (t' : ℕ) (ms : List TeamMember) → t' ≢ t → owners t' (set_role t u r ms) ≡ owners t' ms
  owners-set_role_ne t' [] h = refl
  owners-set_role_ne t' (m ∷ ms) h = ground (arith, owners-set_role_ne t' ms h)

module _ (t u : ℕ) where
  pub drop_member-absent : (ms : List TeamMember) → role_of t u ms ≡ none → drop_member t u ms ≡ ms
  drop_member-absent [] h = refl
  drop_member-absent (m ∷ ms) h = ground (arith, drop_member-absent ms)

  pub role_of-drop_member-none :
      (t' u' : ℕ) (ms : List TeamMember)
      → role_of t' u' ms ≡ none
      → role_of t' u' (drop_member t u ms) ≡ none
  role_of-drop_member-none t' u' [] h = refl
  role_of-drop_member-none t' u' (m ∷ ms) h = ground (arith, role_of-drop_member-none t' u' ms)

  pub drop_member-IsKeyed : (ms : List TeamMember) → IsKeyed ms → IsKeyed (drop_member t u ms)
  drop_member-IsKeyed [] k = tt
  drop_member-IsKeyed (m ∷ ms) k =
      ground
        (arith, drop_member-IsKeyed ms k.1, role_of-drop_member-none m.team_id m.user_id ms k.0)

  pub owners-drop_member :
      (old : Role) (ms : List TeamMember)
      → IsKeyed ms
      → role_of t u ms ≡ some old
      → owners t (drop_member t u ms) + one_if (is_owner old) ≡ owners t ms
  owners-drop_member old [] k h = cc
  owners-drop_member old (m ∷ ms) k h =
      ground (arith, owners-drop_member old ms k.1, drop_member-absent ms)

  pub owners-drop_member_ne :
      (t' : ℕ) (ms : List TeamMember) → t' ≢ t → owners t' (drop_member t u ms) ≡ owners t' ms
  owners-drop_member_ne t' [] h = refl
  owners-drop_member_ne t' (m ∷ ms) h = ground (arith, owners-drop_member_ne t' ms h)

module _ (t : ℕ) where
  pub role_of-drop_team_none :
      (t' u' : ℕ) (ms : List TeamMember)
      → role_of t' u' ms ≡ none
      → role_of t' u' (drop_team_members t ms) ≡ none
  role_of-drop_team_none t' u' [] h = refl
  role_of-drop_team_none t' u' (m ∷ ms) h = ground (arith, role_of-drop_team_none t' u' ms)

  pub drop_team-IsKeyed : (ms : List TeamMember) → IsKeyed ms → IsKeyed (drop_team_members t ms)
  drop_team-IsKeyed [] k = tt
  drop_team-IsKeyed (m ∷ ms) k =
      ground (arith, drop_team-IsKeyed ms k.1, role_of-drop_team_none m.team_id m.user_id ms k.0)

  pub owners-drop_team_self : (ms : List TeamMember) → owners t (drop_team_members t ms) ≡ 0
  owners-drop_team_self [] = refl
  owners-drop_team_self (m ∷ ms) = ground (arith, owners-drop_team_self ms)

  pub owners-drop_team_ne :
      (t' : ℕ) (ms : List TeamMember) → t' ≢ t → owners t' (drop_team_members t ms) ≡ owners t' ms
  owners-drop_team_ne t' [] h = refl
  owners-drop_team_ne t' (m ∷ ms) h = ground (arith, owners-drop_team_ne t' ms h)

  one_owner_row : (u : ℕ) (ms : List TeamMember) → role_of t u ms ≡ some owner → 1 ≤ owners t ms
  one_owner_row u [] h = cc
  one_owner_row u (m ∷ ms) h = ground (arith, one_owner_row u ms)

  -- Two users with the owner role are two rows.
  pub two_owners :
      (u v : ℕ) (ms : List TeamMember)
      → role_of t u ms ≡ some owner
      → role_of t v ms ≡ some owner
      → u ≢ v
      → 2 ≤ owners t ms
  two_owners u v [] hu hv ne = cc
  two_owners u v (m ∷ ms) hu hv ne =
      ground (arith, two_owners u v ms, one_owner_row u ms, one_owner_row v ms)
