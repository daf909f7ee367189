-- ===== src/Service/User/Passwords.antt =====
-- Who changes a password, and what it changes.
use task_management.Base.{
  ℕ, String, Bool, true, Option, none, some, List, [], ◌∷◌, ◌≡◌, ◌≢◌, refl, ap, arith, ◌==◌,
  Bool-cases, inl, inr,
}
use task_management.Domain.Errors.{ok}
use task_management.Domain.Team.{User}
use task_management.Database.Tables.{Db, find_user}
use task_management.Database.Runs.{Runs, lift_runs, query_runs, exec_runs, chain}
use task_management.Repository.User as Users
use task_management.Repository.User.{found_user, set_password_hash}
use task_management.Service.Account.{Crypto}
use task_management.Service.User.{change_password, require_match}

found : (o : Option User) (u : User) → found_user o ≡ ok u → o ≡ some u
found none u h = ground arith
found (some v) u h = cc

matching : (c : Bool) → require_match c ≡ ok tt → c ≡ true
matching c h = ground arith

find_user-set_self :
    (id : ℕ) (hash : String) (us : List User) (u : User)
    → find_user id us ≡ some u
    → find_user id (set_password_hash id hash us) ≡ some (record u { password_hash = hash })
find_user-set_self id hash [] u h = ground arith
find_user-set_self id hash (v ∷ vs) u h = elim (Bool-cases (v.id == id)) [
  | inl e ↦ rw e (
      rw e (
        ap {A = User} {B = Option User} (λ x. some (record x { password_hash = hash }))
          (some_eq v u (rw e at h))))
  | inr e ↦ rw e (rw e (find_user-set_self id hash vs u (rw e at h)))
]
  where
    some_eq : (x y : User) → some x ≡ some y → x ≡ y
    some_eq x y p = cc

find_user-set_ne :
    (id j : ℕ) (hash : String) (us : List User)
    → j ≢ id
    → find_user j (set_password_hash id hash us) ≡ find_user j us
find_user-set_ne id j hash [] ne = refl
find_user-set_ne id j hash (v ∷ vs) ne = ground (arith, find_user-set_ne id j hash vs)

module _ (crypto : Crypto) (id : ℕ) (current next : String) (b b' : Db) where
  -- The caller's hash matched the current password, and only his hash differs now, which is one of
  -- the next password.
  pub record IsChanged (salt : ℕ) : Type 0 where
    pub user : User
    pub hash : String
    pub was : find_user id b.users ≡ some user
    pub matched : crypto.compare user.password_hash current ≡ true
    pub hashed : crypto.hash salt next ≡ ok hash
    pub is : find_user id b'.users ≡ some (record user { password_hash = hash })
    pub others : (j : ℕ) → j ≢ id → find_user j b'.users ≡ find_user j b.users
    pub tables : b' ≡ record b { users = b'.users }

-- ChangePassword, under any outages, fails and changes nothing, or the current password matched the
-- hash of the caller, whose hash alone is replaced by one of the new password.
pub change_password-IsChanged :
    (crypto : Crypto) (salt id : ℕ) (current next : String) (b : Db)
    → Runs b
        (change_password crypto salt id current next)
        (λ b'. b' ≡ b)
        (λ _ b'. IsChanged crypto id current next b b' salt)
unfolding change_password Users.get_by_id Users.update_password_hash
change_password-IsChanged crypto salt id current next b = chain (
    query_runs b _ _ refl λ u is. chain (
      lift_runs b _ refl λ _ allowed. chain (
        lift_runs b _ refl λ hash hashed. exec_runs b _ _ refl (record {
          user = u;
          hash = hash;
          was = found (find_user id b.users) u is;
          matched = matching _ allowed;
          hashed = hashed;
          is = find_user-set_self id hash b.users u (found (find_user id b.users) u is);
          others = λ j ne. find_user-set_ne id j hash b.users ne;
          tables = refl;
        }))))
