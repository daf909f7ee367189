-- ===== src/Service/Team/Ownership.antt =====
-- Every team has exactly one owner, whatever the requests and the outages.
use task_management.Base.{ℕ, String, false, some, List, [], ◌∷◌, ◌≡◌, ◌≢◌, refl, ap, arith, is_some}
use task_management.Domain.Team.{Role, owner, admin, Team}
use task_management.Database.Tables.{Db, role_of, find_team, drop_team}
use task_management.Repository.Team.{set_role, drop_member, set_team_name}
use task_management.Repository.Task.{record_unassigned}
use task_management.Repository.Task.Unassign.{OnlyHistory, record_unassigned-OnlyHistory}
use task_management.Service.Team.Spec.{
  Outranks, Grantable, departed, TeamStep, creates, renames, invites, changes_role, removes, leaves,
  transfers, deletes,
}
use task_management.Service.Team.Owners.{
  one_if, is_owner, owners, IsKeyed, set_role-IsKeyed, role_of-set_role_ne, owners-set_role,
  owners-set_role_ne, drop_member-IsKeyed, owners-drop_member, owners-drop_member_ne,
  drop_team-IsKeyed, owners-drop_team_self, owners-drop_team_ne, two_owners,
}

-- The membership rows are distinct, and a team has one owner if it exists and none if not.
pub record IsGoverned (b : Db) : Type 0 where
  pub keyed : IsKeyed b.members
  pub one_owner : (t : ℕ) → owners t b.members ≡ one_if (is_some (find_team t b.teams))

exists-set_name :
    (t i : ℕ) (name : String) (ts : List Team)
    → is_some (find_team i (set_team_name t name ts)) ≡ is_some (find_team i ts)
exists-set_name t i name [] = refl
exists-set_name t i name (x ∷ ts) = ground (arith, exists-set_name t i name ts)

exists-drop_team_self : (t : ℕ) (ts : List Team) → is_some (find_team t (drop_team t ts)) ≡ false
exists-drop_team_self t [] = refl
exists-drop_team_self t (x ∷ ts) = ground (arith, exists-drop_team_self t ts)

exists-drop_team_ne :
    (t i : ℕ) (ts : List Team) → i ≢ t → find_team i (drop_team t ts) ≡ find_team i ts
exists-drop_team_ne t i [] h = refl
exists-drop_team_ne t i (x ∷ ts) h = ground (arith, exists-drop_team_ne t i ts h)

module _ {b : Db} (g : IsGoverned b) where
  set_role-IsGoverned :
      (t u : ℕ) (old new : Role)
      → role_of t u b.members ≡ some old
      → is_owner old ≡ false
      → is_owner new ≡ false
      → IsGoverned (record b { members = set_role t u new b.members })
  set_role-IsGoverned t u old new is hold hnew = record {
    keyed = set_role-IsKeyed t u new b.members g.keyed;
    one_owner = λ i. ground (
      arith,
      g.one_owner i,
      owners-set_role t u new old b.members g.keyed is,
      owners-set_role_ne t u new i b.members,
    );
  }

  drop_member-IsGoverned :
      (now by t u : ℕ) (old : Role)
      → role_of t u b.members ≡ some old
      → is_owner old ≡ false
      → IsGoverned (departed now by t u b)
  drop_member-IsGoverned now by t u old is hold = record {
    keyed = rw same.members (drop_member-IsKeyed t u b.members g.keyed);
    one_owner = λ i.
        rw (same.members, same.teams)
          (ground (
            arith,
            g.one_owner i,
            owners-drop_member t u old b.members g.keyed is,
            owners-drop_member_ne t u i b.members,
          ));
  }
    where
      left : Db
      left = record b { members = drop_member t u b.members }

      same : OnlyHistory left (record_unassigned b.tasks t u by now left)
      same = record_unassigned-OnlyHistory b.tasks t u by now left

  transfer-IsGoverned :
      (t u v : ℕ) (r : Role)
      → role_of t u b.members ≡ some owner
      → role_of t v b.members ≡ some r
      → v ≢ u
      → IsGoverned (record b { members = set_role t u admin (set_role t v owner b.members) })
  transfer-IsGoverned t u v r hu hv ne = record {
    keyed = set_role-IsKeyed t u admin _ keyed';
    one_owner = λ i. ground (
      arith,
      g.one_owner i,
      owners-set_role t v owner r b.members g.keyed hv,
      owners-set_role_ne t v owner i b.members,
      owners-set_role t u admin owner (set_role t v owner b.members) keyed',
      owners-set_role_ne t u admin i (set_role t v owner b.members),
      role_of-set_role_ne t v owner u b.members,
      two_owners t u v b.members hu,
    );
  }
    where
      keyed' : IsKeyed (set_role t v owner b.members)
      keyed' = set_role-IsKeyed t v owner b.members g.keyed

outranked-ne-owner : (r old : Role) → Outranks r old → is_owner old ≡ false
outranked-ne-owner r old h = ground arith

Grantable-ne-owner : (r : Role) → Grantable r → is_owner r ≡ false
Grantable-ne-owner r h = ground arith

ne-owner : (r : Role) → r ≢ owner → is_owner r ≡ false
ne-owner r h = ground arith

-- Every step of the specification keeps exactly one owner in each team.
pub TeamStep-IsGoverned :
    {actor : ℕ} {b b' : Db} → TeamStep actor b b' → IsGoverned b → IsGoverned b'
TeamStep-IsGoverned {actor} {b} (creates t free fresh) g = record {
  keyed = (fresh, g.keyed);
  one_owner = λ i. ground (arith, g.one_owner i, ap is_some free);
}
TeamStep-IsGoverned {actor} {b} (renames t name r is m) g = record {
  keyed = g.keyed;
  one_owner = λ i. rw (exists-set_name t i name b.teams) (g.one_owner i);
}
TeamStep-IsGoverned {actor} {b} (invites t u r new is m gr ne free known) g = record {
  keyed = (free, g.keyed);
  one_owner = λ i. ground (arith, g.one_owner i, Grantable-ne-owner new gr);
}
TeamStep-IsGoverned (changes_role t u r old new is was ne out gr) g =
    set_role-IsGoverned g t u old new was (outranked-ne-owner r old out) (Grantable-ne-owner new gr)
TeamStep-IsGoverned {actor} (removes now t u r old is was ne out) g =
    drop_member-IsGoverned g now actor t u old was (outranked-ne-owner r old out)
TeamStep-IsGoverned {actor} (leaves now t r is low) g =
    drop_member-IsGoverned g now actor t actor r is (ne-owner r low)
TeamStep-IsGoverned {actor} (transfers t u r is was ne) g =
    transfer-IsGoverned g t actor u r is was ne
TeamStep-IsGoverned {actor} {b} (deletes t is) g = record {
  keyed = drop_team-IsKeyed t b.members g.keyed;
  one_owner = λ i. ground (
    arith,
    g.one_owner i,
    owners-drop_team_self t b.members,
    owners-drop_team_ne t i b.members,
    exists-drop_team_self t b.teams,
    exists-drop_team_ne t i b.teams,
  );
}
