-- ===== src/Service/Auth/Access.antt =====
-- Who gets in, and who is out after a logout.
use task_management.Base.{
  List, [], ◌∷◌, ◌⊎◌, sym, ◌∙◌, ℕ, String, Bool, true, false, Option, none, some, ◌≡◌, ap, arith,
  Bool-cases, inl, inr, str_eq,
}
use task_management.Domain.Errors.{ok}
use task_management.Domain.Team.{User}
use task_management.Domain.Text.{trim_space, normalize_email}
use task_management.Database.Tables.{find_email}
use task_management.Database.Tx.{World, query}
use task_management.Repository.User
use task_management.Repository.User.{found_user}
use task_management.Cache.Redis.{Redis}
use task_management.Cache.Token.{Store, refresh_token_key, delete_refresh_token, set_refresh_token}
use task_management.Service.Account.{
  Crypto, Good, Good-given, Good-recast_account, Good-tables, Good-on_sessions, Good-bind,
  Good-returned, Good-any, Good-return,
}
use task_management.Service.Auth.{
  TokenPair, issue_tokens, login, logout, refresh, bad_credentials, require_password,
}
use task_management.Service.Auth.Rotation.{stored, Never, refresh-absent}

found_user-ok : (o : Option User) (u : User) → found_user o ≡ ok u → o ≡ some u
found_user-ok none u h = ground arith
found_user-ok (some v) u h = cc

get_by_email-found :
    (email : String) (w w' : World) (u : User)
    → User.get_by_email email w ≡ (ok u, w')
    → find_email w.db.same_email email w.db.users ≡ some u
unfolding User.get_by_email query
get_by_email-found email w w' u h = elim (Bool-cases (w.down w.requests)) [
  | inl d ↦ ground arith
  | inr d ↦
      found_user-ok (find_email w.db.same_email email w.db.users) u (ap (λ p. p.0) (rw d at h))
]

require_password-ok : (b : Bool) → require_password b ≡ ok tt → b ≡ true
require_password-ok b h = ground arith

abbrev pub IsRow : User → List User → Type 0
IsRow u [] = ⊥
IsRow u (x ∷ xs) = (u ≡ x) ⊎ IsRow u xs

-- The row that is found is one of the table, and its email is the given one to the collation.
find_email-same :
    (same : String → String → Bool) (e : String) (us : List User) {u : User}
    → find_email same e us ≡ some u
    → (same u.email e ≡ true) × IsRow u us
find_email-same same e [] h = cc
find_email-same same e (x ∷ xs) {u} h = elim (Bool-cases (same x.email e)) [
  | inl t ↦
      let is : x ≡ u = some_eq x u (rw t at h) in
      (ap (λ v. same v.email e) (sym is) ∙ t, inl (sym is))
  | inr f ↦ let rest = find_email-same same e xs (rw f at h) in (rest.0, inr rest.1)
]
  where
    some_eq : (a b : User) → some a ≡ some b → a ≡ b
    some_eq a b p = cc

module _ {S : Type 0} (redis : Redis S) (crypto : Crypto) where
  -- What a login gives the user: an access token made for him, and a refresh token that the session
  -- store holds under its hash, for him.
  abbrev pub IsIssued : ℕ → User → TokenPair → Store S → Type 0
  IsIssued salt user pair s =
      (crypto.generate_access_token salt user.id user.email ≡ ok pair.access_token)
      × (redis.get (refresh_token_key (crypto.hash_refresh_token pair.refresh_token)) s.keys
          ≡ some user.id)

  abbrev pub Authentic : String → String → World → User → Type 0
  Authentic email password w user =
      IsRow user w.db.users
      × (w.db.same_email user.email (normalize_email email) ≡ true)
      × (crypto.compare user.password_hash password ≡ true)

  set_refresh_token-stored :
      (hash : String) (id : ℕ) (s s' : Store S)
      → set_refresh_token redis hash id s ≡ (ok tt, s')
      → redis.get (refresh_token_key hash) s'.keys ≡ some id
  unfolding set_refresh_token
  set_refresh_token-stored hash id s s' e = elim (Bool-cases (s.down s.sent)) [
    | inl d ↦ ground arith
    | inr d ↦ ground (arith, redis.get_set (refresh_token_key hash) id s.ttl s.keys)
  ]

  issue_tokens-IsIssued :
      (salt : ℕ) (user : User) (w : World × Store S)
      → Good (λ pair w'. IsIssued salt user pair w'.1) (issue_tokens redis crypto salt user w)
  unfolding issue_tokens
  issue_tokens-IsIssued salt user w =
      Good-bind (λ access _. crypto.generate_access_token salt user.id user.email ≡ ok access)
        (λ pair w'. IsIssued salt user pair w'.1) _ _ w (Good-given _ _ w λ _ e. e)
        λ access w1 made.
          Good-bind (λ _ _. Unit) (λ pair w'. IsIssued salt user pair w'.1) _ _ w1
            (Good-any _ _ λ _ _. tt)
            λ refresh w2 _.
              Good-bind
                (λ _ w'.
                  redis.get (refresh_token_key (crypto.hash_refresh_token refresh)) w'.1.keys
                  ≡ some user.id)
                (λ pair w'. IsIssued salt user pair w'.1) _ _ w2
                (Good-on_sessions _ _ w2.0 w2.1
                  λ _ s' e. set_refresh_token-stored _ user.id w2.1 s' e)
                λ _ w3 held.
                  Good-return (λ pair w'. IsIssued salt user pair w'.1)
                    (record { access_token = access; refresh_token = refresh }) w3 (made, held)

  abbrev pub LoggedIn : ℕ → String → String → World → User × TokenPair → World × Store S → Type 0
  LoggedIn salt email password w r w' = Authentic email password w r.0 × IsIssued salt r.0 r.1 w'.1

  login-LoggedIn :
      (salt : ℕ) (email password : String) (w : World) (s : Store S)
      → Good (LoggedIn salt email password w) (login redis crypto salt email password (w, s))
  unfolding login
  login-LoggedIn salt email password w s =
      Good-bind
        (λ user _. find_email w.db.same_email (normalize_email email) w.db.users ≡ some user) _ _ _
        (w, s)
        (Good-recast_account _ bad_credentials _ (w, s)
          (Good-tables _ _ w s λ user w' e. get_by_email-found (normalize_email email) w w' user e))
        λ user w1 found.
          Good-bind (λ _ _. crypto.compare user.password_hash password ≡ true) _ _ _ w1
            (Good-given _ _ w1 λ _ e. require_password-ok _ e)
            λ _ w2 matches.
              Good-bind (λ pair w'. IsIssued salt user pair w'.1) _ _ _ w2
                (issue_tokens-IsIssued salt user w2)
                λ pair w3 issued.
                  let row =
                    find_email-same w.db.same_email (normalize_email email) w.db.users found in
                  Good-return (LoggedIn salt email password w) (user, pair) w3
                    ((row.1, row.0, matches), issued)

  -- A login that succeeds is for a user of the table whose email is the given one, in the letters of
  -- `normalize_email`, to the column's collation, and whose stored hash matches the password. The
  -- access token was made for this user's id and email, and the session store holds the hash of the
  -- refresh token for him.
  pub login_sound :
      (salt : ℕ) (email password : String) (w : World) (s : Store S) (user : User)
      (pair : TokenPair)
      → (login redis crypto salt email password (w, s)).0 ≡ ok (user, pair)
      → Authentic email password w user
        × IsIssued salt user pair (login redis crypto salt email password (w, s)).1.1
  login_sound salt email password w s user pair h =
      Good-returned (LoggedIn salt email password w) _ (user, pair)
        (login-LoggedIn salt email password w s) h

  delete-absent :
      (raw : String) (s s' : Store S)
      → delete_refresh_token redis (crypto.hash_refresh_token (trim_space raw)) s ≡ (ok tt, s')
      → stored redis crypto raw s' ≡ none
  unfolding delete_refresh_token
  delete-absent raw s s' e = elim (Bool-cases (s.down s.sent)) [
    | inl d ↦ ground arith
    | inr d ↦ ground (
      arith,
      redis.get_del (refresh_token_key (crypto.hash_refresh_token (trim_space raw))) s.keys,
    )
  ]

  logout-absent :
      (clock : ℕ) (access raw : String) (w : World × Store S)
      → str_eq (trim_space raw) "" ≡ false
      → Good (λ _ w'. stored redis crypto raw w'.1 ≡ none) (logout redis crypto clock access raw w)
  unfolding logout
  logout-absent clock access raw w given =
      Good-bind (λ _ _. Unit) _ _ _ w (Good-any _ _ λ _ _. tt)
        λ _ w1 _. rw given (Good-on_sessions _ _ w1.0 w1.1 λ _ s' e. delete-absent raw w1.1 s' e)

  -- After a logout that succeeds, the refresh token that was handed in, which was not blank, is not
  -- accepted.
  pub logout-revokes :
      (clock salt : ℕ) (access raw : String) (w : World × Store S) (pair : TokenPair)
      → str_eq (trim_space raw) "" ≡ false
      → (logout redis crypto clock access raw w).0 ≡ ok tt
      → ¬ ((refresh redis crypto salt raw (logout redis crypto clock access raw w).1).0 ≡ ok pair)
  logout-revokes clock salt access raw w pair given out again =
      Good-returned (Never redis crypto) _ pair
        (refresh-absent redis crypto salt raw _ (
          Good-returned (λ _ w'. stored redis crypto raw w'.1 ≡ none) _ tt
            (logout-absent clock access raw w given) out))
        again
