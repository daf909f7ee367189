-- ===== src/Tests/Sessions.antt =====
-- A Redis server that is a list of keys, and a token service without secrets.
use text.Mathlib.TextPositions.{eq_refl}
use Prim.Native.String.{◌++◌ as concat}
use task_management.Base.{
  ltb, ◌-◌, ◌<◌, ℕ, String, true, false, Option, none, some, List, [], ◌∷◌, ◌≡◌, ◌≢◌, refl, arith,
  ◌∙◌, sym, if◌then◌else◌, str_eq, eq_iff, Bool-cases, inl, inr,
}
use task_management.Domain.Errors.{ok}
use task_management.Database.Tx.{World}
use task_management.Cache.Redis.{Redis}
use task_management.Cache.Token.{Store}
use task_management.Service.Account.{Crypto}
use task_management.Tests.Sample.{quiet, world}

-- Each key with its value and what is left of its time to live.
abbrev pub Keys : Type 0
Keys = List (String × ℕ × ℕ)

abbrev pub get : String → Keys → Option ℕ
get k [] = none
get k (e ∷ es) = if str_eq e.0 k then some e.1 else get k es

abbrev pub left : String → Keys → ℕ
left k [] = 0
left k (e ∷ es) = if str_eq e.0 k then e.2 else left k es

abbrev pub del : String → Keys → Keys
del k [] = []
del k (e ∷ es) = let rest = del k es in if str_eq e.0 k then rest else e ∷ rest

abbrev pub set : String → ℕ → ℕ → Keys → Keys
set k v ttl s = (k, v, ttl) ∷ del k s

abbrev pub elapse : ℕ → Keys → Keys
elapse n [] = []
elapse n (e ∷ es) = let rest = elapse n es in if ltb n e.2 then (e.0, e.1, e.2 - n) ∷ rest else rest

unequal : (a b : String) → a ≢ b → str_eq a b ≡ false
unequal a b ne = elim (Bool-cases (str_eq a b)) [
  | inl e ↦ elim (ne ((eq_iff a b).0 e)) [ ]
  | inr e ↦ e
]

pub get-set : (k : String) (v ttl : ℕ) (s : Keys) → get k (set k v ttl s) ≡ some v
get-set k v ttl s = rw (eq_refl k) refl

pub left-set : (k : String) (v ttl : ℕ) (s : Keys) → left k (set k v ttl s) ≡ ttl
left-set k v ttl s = rw (eq_refl k) refl

pub get-del : (k : String) (s : Keys) → get k (del k s) ≡ none
get-del k [] = refl
get-del k (e ∷ es) = ground (arith, get-del k es)

both : (a k j : String) → str_eq a k ≡ true → j ≢ k → str_eq a j ≡ false
both a k j e ne = unequal a j λ f. ne (sym f ∙ (eq_iff a k).0 e)

pub get-del_ne : (k j : String) (s : Keys) → j ≢ k → get j (del k s) ≡ get j s
get-del_ne k j [] ne = refl
get-del_ne k j (e ∷ es) ne = elim (Bool-cases (str_eq e.0 k)) [
  | inl h ↦ rw (h, both e.0 k j h ne) (get-del_ne k j es ne)
  | inr h ↦ ground (arith, get-del_ne k j es ne)
]

pub left-del_ne : (k j : String) (s : Keys) → j ≢ k → left j (del k s) ≡ left j s
left-del_ne k j [] ne = refl
left-del_ne k j (e ∷ es) ne = elim (Bool-cases (str_eq e.0 k)) [
  | inl h ↦ rw (h, both e.0 k j h ne) (left-del_ne k j es ne)
  | inr h ↦ ground (arith, left-del_ne k j es ne)
]

pub get-set_ne : (k j : String) (v ttl : ℕ) (s : Keys) → j ≢ k → get j (set k v ttl s) ≡ get j s
get-set_ne k j v ttl s ne = rw (unequal k j λ e. ne (sym e)) (get-del_ne k j s ne)

pub left-set_ne : (k j : String) (v ttl : ℕ) (s : Keys) → j ≢ k → left j (set k v ttl s) ≡ left j s
left-set_ne k j v ttl s ne = rw (unequal k j λ e. ne (sym e)) (left-del_ne k j s ne)

pub get-elapse : (k : String) (n : ℕ) (s : Keys) → n < left k s → get k (elapse n s) ≡ get k s
get-elapse k n [] h = refl
get-elapse k n (e ∷ es) h = elim (Bool-cases (str_eq e.0 k)) [
  | inl f ↦ ground (arith, f, h)
  | inr f ↦ ground (arith, f, get-elapse k n es (rw f at h))
]

pub left-elapse :
    (k : String) (n : ℕ) (s : Keys) → n < left k s → left k (elapse n s) ≡ left k s - n
left-elapse k n [] h = absurd (omega (arith, h))
left-elapse k n (e ∷ es) h = elim (Bool-cases (str_eq e.0 k)) [
  | inl f ↦ ground (arith, f, h)
  | inr f ↦ ground (arith, f, left-elapse k n es (rw f at h))
]

pub absent-elapse : (k : String) (n : ℕ) (s : Keys) → get k s ≡ none → get k (elapse n s) ≡ none
absent-elapse k n [] h = refl
absent-elapse k n (e ∷ es) h = elim (Bool-cases (str_eq e.0 k)) [
  | inl f ↦ ground (arith, f, h)
  | inr f ↦ ground (arith, f, absent-elapse k n es (rw f at h))
]

abbrev pub redis : Redis Keys
redis = record {
  get = get;
  set = set;
  del = del;
  left = left;
  elapse = elapse;
  get_set = get-set;
  get_set_ne = get-set_ne;
  get_del = get-del;
  get_del_ne = get-del_ne;
  left_set = λ k v ttl s h. left-set k v ttl s;
  left_set_ne = left-set_ne;
  left_del_ne = left-del_ne;
  get_elapse = get-elapse;
  left_elapse = left-elapse;
  absent_elapse = absent-elapse;
}

abbrev pub crypto : Crypto
crypto = record {
  hash = λ salt password. ok (concat "h" password);
  compare = λ hash password. str_eq hash (concat "h" password);
  generate_access_token = λ salt id email. ok "access";
  generate_refresh_token = λ salt. ok "next";
  hash_refresh_token = λ token. concat "#" token;
  validate_access_token = λ token. some (record { user_id = 3; jti = token; expires_at = 60 });
}

-- The sessions of user 3, who holds the refresh token "first".
abbrev pub sessions : Store Keys
sessions = record { keys = ("auth:refresh:#first", 3, 90) ∷ []; ttl = 90; down = quiet; sent = 0 }

abbrev pub account : World × Store Keys
account = (world, sessions)
