-- ===== src/Service/Auth/Rotation.antt =====
-- A refresh token is consumed by the call that uses it.
use task_management.Base.{ℕ, String, Option, none, ◌≡◌, ◌≢◌, arith, Bool-cases, inl, inr}
use task_management.Domain.Errors.{ok}
use task_management.Domain.Text.{trim_space}
use task_management.Database.Tx.{World}
use task_management.Cache.Redis.{Redis}
use task_management.Cache.Token.{Store, refresh_token_key, get_refresh_token}
use task_management.Cache.Token.Single.{rotate_refresh_token-consumes}
use task_management.Service.Account.{
  Crypto, Good, Good-settled, Good-recast_account, Good-on_sessions, Good-bind, Good-returned,
  Good-any, Good-return,
}
use task_management.Service.Auth.{TokenPair, refresh, stale_token}

module _ {S : Type 0} (redis : Redis S) (crypto : Crypto) where
  -- Is the hash of the token stored?
  abbrev pub stored : String → Store S → Option ℕ
  stored raw s = redis.get (refresh_token_key (crypto.hash_refresh_token (trim_space raw))) s.keys

  -- A step whose result does not matter.
  abbrev AnyResult : {A : Type 0} → A → World × Store S → Type 0
  AnyResult a w = Unit

  abbrev Consumed : String → TokenPair → World × Store S → Type 0
  Consumed raw pair w =
      crypto.hash_refresh_token (trim_space raw) ≢ crypto.hash_refresh_token pair.refresh_token
      → stored raw w.1 ≡ none

  abbrev pub Never : {A : Type 0} → A → World × Store S → Type 0
  Never a w = ⊥

  refresh-Consumed :
      (salt : ℕ) (raw : String) (w : World × Store S)
      → Good (Consumed raw) (refresh redis crypto salt raw w)
  unfolding refresh
  refresh-Consumed salt raw w =
      Good-bind AnyResult (Consumed raw) _ _ w (Good-any AnyResult _ λ _ _. tt) λ _ w1 _.
        Good-bind AnyResult (Consumed raw) _ _ w1 (Good-any AnyResult _ λ _ _. tt) λ id w2 _.
          Good-bind AnyResult (Consumed raw) _ _ w2 (Good-any AnyResult _ λ _ _. tt) λ user w3 _.
            Good-bind AnyResult (Consumed raw) _ _ w3 (Good-any AnyResult _ λ _ _. tt)
              λ access w4 _.
                Good-bind AnyResult (Consumed raw) _ _ w4 (Good-any AnyResult _ λ _ _. tt)
                  λ next w5 _.
                    Good-bind
                      (λ _ w'.
                        Consumed raw (record { access_token = access; refresh_token = next }) w')
                      (Consumed raw) _ _ w5
                      (Good-on_sessions _ _ w5.0 w5.1 λ _ s' e ne.
                        (rotate_refresh_token-consumes redis
                          (crypto.hash_refresh_token (trim_space raw))
                          (crypto.hash_refresh_token next) user.id w5.1 s' ne e).1)
                      λ _ w6 h. Good-return (Consumed raw) _ w6 h

  get-absent :
      (raw : String) (s s' : Store S) (id : ℕ)
      → stored raw s ≡ none
      → get_refresh_token redis (crypto.hash_refresh_token (trim_space raw)) s ≡ (ok id, s')
      → ⊥
  unfolding get_refresh_token
  get-absent raw s s' id h e = elim (Bool-cases (s.down s.sent)) [
    | inl d ↦ ground arith
    | inr d ↦ ground (arith, h)
  ]

  pub refresh-absent :
      (salt : ℕ) (raw : String) (w : World × Store S)
      → stored raw w.1 ≡ none
      → Good Never (refresh redis crypto salt raw w)
  unfolding refresh
  refresh-absent salt raw w h =
      Good-bind (λ _ w'. stored raw w'.1 ≡ none) Never _ _ w (Good-settled _ _ w λ _. h)
        λ _ w1 h1.
          Good-bind Never Never _ _ w1
            (Good-recast_account Never stale_token _ w1
              (Good-on_sessions Never _ w1.0 w1.1 λ id s' e. get-absent raw w1.1 s' id h1 e))
            λ id w2 f. elim f [ ]

  -- A refresh token that has been exchanged is not accepted again, whatever random numbers are drawn
  -- and whatever outages happen, provided that the new token's hash is another one.
  pub refresh-refused :
      (salt salt' : ℕ) (raw : String) (w : World × Store S) (pair pair' : TokenPair)
      → (refresh redis crypto salt raw w).0 ≡ ok pair
      → crypto.hash_refresh_token (trim_space raw) ≢ crypto.hash_refresh_token pair.refresh_token
      → ¬ ((refresh redis crypto salt' raw (refresh redis crypto salt raw w).1).0 ≡ ok pair')
  refresh-refused salt salt' raw w pair pair' first ne second =
      Good-returned Never _ pair'
        (refresh-absent salt' raw _
          (Good-returned (Consumed raw) _ pair (refresh-Consumed salt raw w) first ne))
        second
