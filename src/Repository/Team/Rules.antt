-- ===== src/Repository/Team/Rules.antt =====
-- The rules of the team repository: what each method reads, or leaves behind.
use task_management.Base.{
  ℕ, String, Bool, true, false, not, Option, none, some, ◌∷◌, ◌≡◌, refl, ◌&&◌, ◌||◌, arith, is_some,
  Bool-cases, inl, inr,
}
use task_management.Domain.Errors.{ok}
use task_management.Domain.Team.{Role, Team, TeamMember}
use task_management.Database.Tables.{Db, find_user, find_team, role_of}
use task_management.Database.Runs.{Runs, exec_runs, query_runs}
use task_management.Repository.Team.{
  found_role, found_team, without_team, set_role, drop_member, set_team_name, changes_role,
}
use task_management.Repository.Team

found_role-ok : (o : Option Role) {r : Role} → found_role o ≡ ok r → o ≡ some r
found_role-ok none h = cc
found_role-ok (some r) h = cc

found_team-ok : (o : Option Team) {t : Team} → found_team o ≡ ok t → o ≡ some t
found_team-ok none h = cc
found_team-ok (some r) h = cc

changes_role-some :
    (r : Role) (o : Option Role) → changes_role r o ≡ true → (old : Role) × (o ≡ some old)
changes_role-some r none h = cc
changes_role-some r (some old) h = (old, refl)

is_some-none : {A : Type 0} (o : Option A) → is_some o ≡ false → o ≡ none
is_some-none none h = refl
is_some-none (some a) h = cc

or_false : {a : Bool} (c : Bool) → (a || c) ≡ false → a ≡ false
or_false c h = ground arith

and_true : {a : Bool} (c : Bool) → (a && c) ≡ true → a ≡ true
and_true c h = ground arith

module _ {E : Db → Type 0} {Q : Role → Db → Type 0} (b : Db) (t u : ℕ) where
  pub get_member_role_runs :
      E b
      → ((r : Role) → role_of t u b.members ≡ some r → Q r b)
      → Runs b (Team.get_member_role t u) E Q
  unfolding Team.get_member_role
  get_member_role_runs fails h =
      query_runs b _ _ fails (λ r e. h r (found_role-ok (role_of t u b.members) e))

  pub get_member_role_for_update_runs :
      E b
      → ((r : Role) → role_of t u b.members ≡ some r → Q r b)
      → Runs b (Team.get_member_role_for_update t u) E Q
  unfolding Team.get_member_role_for_update
  get_member_role_for_update_runs fails h =
      query_runs b _ _ fails (λ r e. h r (found_role-ok (role_of t u b.members) e))

module _ {E : Db → Type 0} {Q : Bool → Db → Type 0} (b : Db) (t u : ℕ) where
  pub is_member_runs :
      E b
      → ((r : Bool) → is_some (role_of t u b.members) ≡ r → Q r b)
      → Runs b (Team.is_member t u) E Q
  unfolding Team.is_member
  is_member_runs fails h = query_runs b _ _ fails (λ r e. h r (cc))

module _ {E : Db → Type 0} {Q : Team → Db → Type 0} (b : Db) (t : ℕ) where
  pub get_by_id_runs :
      E b → ((x : Team) → find_team t b.teams ≡ some x → Q x b) → Runs b (Team.get_by_id t) E Q
  unfolding Team.get_by_id
  get_by_id_runs fails h =
      query_runs b _ _ fails (λ r e. h r (found_team-ok (find_team t b.teams) e))

module _ {E : Db → Type 0} {Q : Unit {0} → Db → Type 0} (b : Db) where
  pub create_runs :
      (t : Team)
      → E b
      → (find_team t.id b.teams ≡ none → Q tt (record b { teams = t ∷ b.teams }))
      → Runs b (Team.create t) E Q
  unfolding Team.create
  create_runs t fails h = exec_runs b _ _ fails (elim (Bool-cases c) [
    | inl taken ↦ rw taken tt
    | inr free ↦ rw free (h (is_some-none (find_team t.id b.teams) (or_false _ free)))
  ])
    where
      c : Bool
      c = is_some (find_team t.id b.teams) || not (is_some (find_user t.created_by b.users))

  pub rename_runs :
      (t : ℕ) (name : String)
      → E b
      → Q tt (record b { teams = set_team_name t name b.teams })
      → Runs b (Team.rename t name) E Q
  unfolding Team.rename
  rename_runs t name fails h = exec_runs b _ _ fails h

  pub delete_runs : (t : ℕ) → E b → Q tt (without_team t b) → Runs b (Team.delete t) E Q
  unfolding Team.delete
  delete_runs t fails h =
      exec_runs b _ _ fails
        (elim (Bool-cases (is_some (find_team t b.teams))) [ inl e ↦ rw e h | inr e ↦ rw e tt ])

  pub add_member_runs :
      (m : TeamMember)
      → E b
      → (role_of m.team_id m.user_id b.members ≡ none
          → is_some (find_team m.team_id b.teams) ≡ true
          → Q tt (record b { members = m ∷ b.members }))
      → Runs b (Team.add_member m) E Q
  unfolding Team.add_member
  add_member_runs m fails h =
      exec_runs b _ _ fails (elim (Bool-cases (is_some (role_of m.team_id m.user_id b.members))) [
        | inl taken ↦ rw taken tt
        | inr fresh ↦ rw fresh (elim (Bool-cases known) [
          | inl e ↦
              rw e (h (is_some-none (role_of m.team_id m.user_id b.members) fresh) (and_true _ e))
          | inr e ↦ rw e tt
        ])
      ])
    where
      known : Bool
      known = is_some (find_team m.team_id b.teams) && is_some (find_user m.user_id b.users)

  pub update_member_role_runs :
      (t u : ℕ) (r : Role)
      → E b
      → Q tt (record b { members = set_role t u r b.members })
      → Runs b (Team.update_member_role t u r) E Q
  unfolding Team.update_member_role
  update_member_role_runs t u r fails h =
      exec_runs b _ _ fails (elim (Bool-cases (changes_role r (role_of t u b.members))) [
        | inl e ↦ rw e h
        | inr e ↦ rw e tt
      ])

  pub remove_member_runs :
      (t u : ℕ)
      → E b
      → Q tt (record b { members = drop_member t u b.members })
      → Runs b (Team.remove_member t u) E Q
  unfolding Team.remove_member
  remove_member_runs t u fails h =
      exec_runs b _ _ fails
        (elim (Bool-cases (is_some (role_of t u b.members))) [ inl e ↦ rw e h | inr e ↦ rw e tt ])
