-- ===== src/Service/Team/Report.antt =====
-- Who sees the report on a team.
use task_management.Base.{ℕ, String, Bool, some, ◌≡◌, refl}
use task_management.Domain.Team.{Role}
use task_management.Database.Tables.{Db, role_of}
use task_management.Database.Runs.{Runs, lift_runs, query_runs, chain}
use task_management.Repository.Team.Stats as Stats
use task_management.Repository.Team.Stats.{stats_of}
use task_management.Service.Team.{get_stats}
use task_management.Service.Team.Spec.{Manages}
use task_management.Service.Team.Guards.{can_view_analytics_iff}
use task_management.Service.Team.Refines.{member_role_runs}

-- GetStats changes no table, whatever fails, and returns only to an owner or admin of the team, with
-- the report on the tables as they are.
pub get_stats-Manages :
    (name_first : String → String → Bool) (now actor t : ℕ) (b : Db)
    → Runs b
        (get_stats name_first now actor t)
        (λ b'. b' ≡ b)
        (λ s b'.
          ((r : Role) × (role_of t actor b.members ≡ some r) × Manages r)
          × (s ≡ stats_of name_first now t b)
          × (b' ≡ b))
unfolding get_stats Stats.get_stats
get_stats-Manages name_first now actor t b = chain (
    member_role_runs b t actor refl λ r is. chain (
      lift_runs b _ refl λ _ allowed.
        query_runs b _ _ refl λ s e. ((r, is, (can_view_analytics_iff r).0 (cc)), cc, refl)))
