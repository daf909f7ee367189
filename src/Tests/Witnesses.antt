-- ===== src/Tests/Witnesses.antt =====
-- The theorems at concrete inputs.
use task_management.Base.{str_eq, false, ◌≡◌, ◌↔◌, ◌⊎◌, ◌≢◌}
use task_management.Domain.Errors.{ok}
use task_management.Domain.Team.{owner, admin, member}
use task_management.Database.Runs.{Runs}
use task_management.Service.Rbac.{can_invite, can_change_role}
use task_management.Service.Requests.{run, serve, Request}
use task_management.Service.Team.{
  create_team, rename_team, delete_team, invite_member, leave_team, transfer_ownership,
  change_member_role, remove_member,
}
use task_management.Service.Team.Spec.{TeamStep, Manages, Grantable, Outranks}
use task_management.Service.Team.Guards.{can_invite_iff, can_change_role_iff}
use task_management.Service.Team.Refines.{
  create_team-refines, rename_team-refines, delete_team-refines, invite_member-refines,
  leave_team-refines, transfer_ownership-refines, change_member_role-refines, remove_member-refines,
}
use task_management.Service.Task.{create_task, update_task, delete_task}
use task_management.Service.Task.Spec.{TaskStep}
use task_management.Service.Task.Refines.{
  create_task-refines, update_task-refines, delete_task-refines,
}
use task_management.Service.Invariant.Steps.{Steps, serve-refines}
use task_management.Service.Invariant.Reach.{IsSound, started, reachable-IsSound}
use task_management.Tests.Sample.{people, quiet, tables, invitation, new_ticket, finished, story}
use task_management.Base.{refl, String, none, some, [], ◌∷◌}
use task_management.Domain.Text.{trim_space, normalize_email, is_space}
use task_management.Database.Tx.{query}
use task_management.Repository.User
use task_management.Cache.Token.{
  Store, refresh_token_key, set_refresh_token, get_refresh_token, rotate_refresh_token,
}
use task_management.Cache.Token.Calls as TokenCalls
use task_management.Cache.Token.Once.{redeemed, redeemed-once}
use task_management.Base.{◌≤◌}
use task_management.Cache.Token.Single.{rotate_refresh_token-consumes}
use task_management.Service.Account
use task_management.Service.Account.{on_tables, on_sessions, settled, recast_account}
use task_management.Service.Auth.{TokenPair, login, refresh, issue_tokens}
use task_management.Service.Auth.Rotation.{refresh-refused}
use task_management.Base.{ℕ, arith, ◌==◌, false}
use task_management.Database.Quiet.{Completes}
use task_management.Service.Team.Spec.{ranked, departed}
use task_management.Service.Team.Completes.{transfer_ownership_completes, remove_member_completes}
use task_management.Service.Task.Version.{IsAt, update_task-version}
use task_management.Database.Tables.{find_task}
use task_management.Service.Auth.Access.{Authentic, IsIssued, login_sound}
use task_management.Tests.Sample.{world, user}
use task_management.Tests.Sessions.{Keys, redis, crypto, sessions, account}

reachable-IsSound_example : IsSound (run story (started str_eq people quiet)).db
reachable-IsSound_example = reachable-IsSound story str_eq people quiet

serve-refines_example :
    Runs tables (serve (Request.remove_member_req 9 1 7 3)) (Steps 1 tables) (λ _. Steps 1 tables)
serve-refines_example = serve-refines (Request.remove_member_req 9 1 7 3) tables

update_task-refines_example :
    Runs tables
      (update_task 9 9 3 5 finished)
      (λ b'. b' ≡ tables)
      (λ _ b'. (b' ≡ tables) ⊎ TaskStep 3 tables b')
update_task-refines_example = update_task-refines 9 9 3 5 finished tables

create_task-refines_example :
    Runs tables (create_task 6 9 3 new_ticket) (λ b'. b' ≡ tables) (λ _ b'. TaskStep 3 tables b')
create_task-refines_example = create_task-refines 6 9 3 new_ticket tables

delete_task-refines_example :
    Runs tables (delete_task 2 5) (λ b'. b' ≡ tables) (λ _ b'. TaskStep 2 tables b')
delete_task-refines_example = delete_task-refines 2 5 tables

transfer_ownership-refines_example :
    Runs tables (transfer_ownership 1 7 3) (λ b'. b' ≡ tables) (λ _ b'. TeamStep 1 tables b')
transfer_ownership-refines_example = transfer_ownership-refines 1 7 3 tables

remove_member-refines_example :
    Runs tables (remove_member 9 2 7 3) (λ b'. b' ≡ tables) (λ _ b'. TeamStep 2 tables b')
remove_member-refines_example = remove_member-refines 9 2 7 3 tables

leave_team-refines_example :
    Runs tables (leave_team 9 3 7) (λ b'. b' ≡ tables) (λ _ b'. TeamStep 3 tables b')
leave_team-refines_example = leave_team-refines 9 3 7 tables

change_member_role-refines_example :
    Runs tables (change_member_role 1 7 3 admin) (λ b'. b' ≡ tables) (λ _ b'. TeamStep 1 tables b')
change_member_role-refines_example = change_member_role-refines 1 7 3 admin tables

invite_member-refines_example :
    Runs tables (invite_member 2 7 invitation) (λ b'. b' ≡ tables) (λ _ b'. TeamStep 2 tables b')
invite_member-refines_example = invite_member-refines 2 7 invitation tables

delete_team-refines_example :
    Runs tables (delete_team 1 7) (λ b'. b' ≡ tables) (λ _ b'. TeamStep 1 tables b')
delete_team-refines_example = delete_team-refines 1 7 tables

create_team-refines_example :
    Runs tables (create_team 8 9 4 " ops ") (λ b'. b' ≡ tables) (λ _ b'. TeamStep 4 tables b')
create_team-refines_example = create_team-refines 8 9 4 " ops " tables

rename_team-refines_example :
    Runs tables
      (rename_team 2 7 "ops")
      (λ b'. (b' ≡ tables) ⊎ TeamStep 2 tables b')
      (λ _ b'. (b' ≡ tables) ⊎ TeamStep 2 tables b')
rename_team-refines_example = rename_team-refines 2 7 "ops" tables

can_invite_iff_example : (can_invite admin admin ≡ ok tt) ↔ (Manages admin × Grantable admin)
can_invite_iff_example = can_invite_iff admin admin

can_change_role_iff_example :
    (can_change_role owner member admin false ≡ ok tt)
    ↔ ((false ≡ false) × Outranks owner member × Grantable admin × (member ≢ admin))
can_change_role_iff_example = can_change_role_iff owner member admin false

abbrev token_key : String
token_key = refresh_token_key "#first"

abbrev first_hash : String
first_hash = "#first"

abbrev next_hash : String
next_hash = "#next"

first_is_not_next : first_hash ≢ next_hash
first_is_not_next h = cc

abbrev rotated : Store Keys
rotated = record { keys = ("auth:refresh:#next", 3, 90) ∷ []; ttl = 90; down = quiet; sent = 2 }

rotate_refresh_token-consumes_example :
    (redis.get token_key sessions.keys ≡ some 3)
    × (redis.get token_key rotated.keys ≡ none)
    × (redis.get (refresh_token_key "#next") rotated.keys ≡ some 3)
unfolding rotate_refresh_token
rotate_refresh_token-consumes_example =
    rotate_refresh_token-consumes redis "#first" "#next" 3 sessions rotated first_is_not_next refl

redeemed-once_example :
    redeemed redis "#first"
      (TokenCalls.Call.rotates "#first" "#next" 3
        ∷ TokenCalls.Call.rotates "#first" "#next" 3
        ∷ TokenCalls.Call.waits 5
        ∷ [])
      sessions
    ≤ 1
redeemed-once_example =
    redeemed-once redis "#first"
      (TokenCalls.Call.rotates "#first" "#next" 3
        ∷ TokenCalls.Call.rotates "#first" "#next" 3
        ∷ TokenCalls.Call.waits 5
        ∷ [])
      sessions (first_is_not_next, (first_is_not_next, (tt, tt)))

abbrev new_pair : TokenPair
new_pair = record { access_token = "access"; refresh_token = "next" }

refresh-refused_example :
    ¬ ((refresh redis crypto 1 "first" (refresh redis crypto 0 "first" account).1).0 ≡ ok new_pair)
unfolding refresh get_refresh_token rotate_refresh_token User.get_by_id query trim_space is_space
    on_tables on_sessions settled recast_account Account.◌>>=◌
refresh-refused_example =
    refresh-refused redis crypto 0 1 "first" account new_pair new_pair refl first_is_not_next

login_sound_example :
    Authentic redis crypto " " "pw" world (user 1)
    × IsIssued redis crypto 0
        (user 1)
        new_pair
        (login redis crypto 0 " " "pw" (world, sessions)).1.1
unfolding login issue_tokens set_refresh_token User.get_by_email query normalize_email trim_space
    is_space on_tables on_sessions settled recast_account Account.◌>>=◌
login_sound_example = login_sound redis crypto 0 " " "pw" world sessions (user 1) new_pair refl

update_task-version_example :
    Runs tables
      (update_task 9 9 3 5 finished)
      (λ b'. b' ≡ tables)
      (λ _ _. IsAt 1 (find_task 5 tables.tasks))
update_task-version_example = update_task-version 9 9 3 5 finished tables

member_is_low : member ≢ owner
member_is_low = ground arith

other_user : (a b : ℕ) → (a == b) ≡ false → a ≢ b
other_user a b h = ground arith

transfer_ownership_completes_example :
    Completes tables
      (transfer_ownership 1 7 3)
      (λ _ b'. b' ≡ ranked 7 1 admin (ranked 7 3 owner tables))
transfer_ownership_completes_example =
    transfer_ownership_completes 1 7 3 member tables refl refl member_is_low (other_user 3 1 refl)

remove_member_completes_example :
    Completes tables (remove_member 9 1 7 3) (λ _ b'. b' ≡ departed 9 1 7 3 tables)
remove_member_completes_example =
    remove_member_completes 9 1 7 3 owner member tables refl refl (other_user 3 1 refl)
      member_is_low
