-- ===== src/Config/Env.antt =====
-- internal/config/helper.go: the settings of the environment. A reading gives the setting and the
-- errors that it adds; what the environment holds is a function. The texts of the errors are left out.
use Prim.Native.Char.{Char, code}
use task_management.Base.{
  ℕ, ◌+◌, ◌-◌, ◌*◌, String, Bool, true, false, Option, none, some, List, [], ◌∷◌, ◌&&◌, ◌==◌, leb,
  ltb, if◌then◌else◌, str_eq,
}
use task_management.Domain.Listing.{ℤ, pos, negsuc}
use task_management.Domain.Text.{trim_space, to_lower}
use task_management.Config.{contains}

-- The key, and what was wrong.
pub data EnvError : Type 0 where
  missing : String → EnvError
  not_integer : String → String → EnvError
  not_boolean : String → String → EnvError

abbrev pub Reading : Type 0 → Type 0
Reading A = A × List EnvError

abbrev pub unless_blank : Option String → Option String
unless_blank none = none
unless_blank (some v) = if str_eq (trim_space v) "" then none else some (trim_space v)

-- `strconv.Atoi`: a sign or none, then decimal digits, of a number in 64 bits.
abbrev pub digits : ℕ → String → Option ℕ
digits n String.[] = some n
digits n (String.◌∷◌ c s) =
    let rest = digits (n * 10 + (code c - b'0')) s in
    if leb b'0' (code c) && leb (code c) b'9' then rest else none

abbrev pub natural_text : String → Option ℕ
natural_text String.[] = none
natural_text (String.◌∷◌ c s) = digits 0 (String.◌∷◌ c s)

abbrev pub in_int64 : Option ℕ → Option ℤ
in_int64 none = none
in_int64 (some n) = if ltb n 9_223_372_036_854_775_808 then some (pos n) else none

-- -n, for n up to 2^63
abbrev pub negated : Option ℕ → Option ℤ
negated none = none
negated (some n) =
    if n == 0
    then some (pos 0)
    else if leb n 9_223_372_036_854_775_808
    then some (negsuc (n - 1))
    else none

unfoldable pub atoi : String → Option ℤ
atoi String.[] = none
atoi (String.◌∷◌ c s) =
    if code c == b'-'
    then negated (natural_text s)
    else if code c == b'+'
    then in_int64 (natural_text s)
    else in_int64 (natural_text (String.◌∷◌ c s))

abbrev pub boolean : String → Option Bool
boolean v =
    if contains ("1" ∷ "true" ∷ "yes" ∷ "on" ∷ []) (to_lower v)
    then some true
    else if contains ("0" ∷ "false" ∷ "no" ∷ "off" ∷ []) (to_lower v)
    then some false
    else none

-- `strings.Split` at the commas.
abbrev pub onto_first : Char → List String → List String
onto_first c [] = String.◌∷◌ c String.[] ∷ []
onto_first c (p ∷ ps) = String.◌∷◌ c p ∷ ps

abbrev pub split : String → List String
split String.[] = String.[] ∷ []
split (String.◌∷◌ c s) =
    let rest = split s in if code c == b',' then String.[] ∷ rest else onto_first c rest

abbrev pub trimmed : List String → List String
trimmed [] = []
trimmed (p ∷ ps) =
    let rest = trimmed ps in if str_eq (trim_space p) "" then rest else trim_space p ∷ rest

module _ (environment : String → Option String) where
  unfoldable pub lookup : String → Option String
  lookup key = unless_blank (environment key)

  abbrev pub or_else : Option String → String → String
  or_else none fallback = fallback
  or_else (some v) fallback = v

  unfoldable pub str : String → String → String
  str key fallback = or_else (lookup key) fallback

  abbrev pub given : String → Option String → Reading String
  given key none = ("", missing key ∷ [])
  given key (some v) = (v, [])

  unfoldable pub required : String → Reading String
  required key = given key (lookup key)

  abbrev pub integer : String → ℤ → String → Option ℤ → Reading ℤ
  integer key fallback v none = (fallback, not_integer key v ∷ [])
  integer key fallback v (some n) = (n, [])

  abbrev pub parse_int : String → ℤ → Option String → Reading ℤ
  parse_int key fallback none = (fallback, [])
  parse_int key fallback (some v) = integer key fallback v (atoi v)

  unfoldable pub int : String → ℤ → Reading ℤ
  int key fallback = parse_int key fallback (lookup key)

  abbrev pub truth : String → Bool → String → Option Bool → Reading Bool
  truth key fallback v none = (fallback, not_boolean key v ∷ [])
  truth key fallback v (some b) = (b, [])

  abbrev pub parse_bool : String → Bool → Option String → Reading Bool
  parse_bool key fallback none = (fallback, [])
  parse_bool key fallback (some v) = truth key fallback v (boolean v)

  unfoldable pub bool : String → Bool → Reading Bool
  bool key fallback = parse_bool key fallback (lookup key)

  unfoldable pub list : String → String → List String
  list key fallback = trimmed (split (str key fallback))
