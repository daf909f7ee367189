-- ===== src/Domain/Text.antt =====
-- What the services use of Go's package strings, over the characters of a text.
use Prim.Native.Char.{Char, code}
use task_management.Base.{
  ℕ, zero, suc, ◌-◌, ◌/◌, ◌%◌, ◌≡◌, refl, String, Bool, true, ◌||◌, ◌&&◌, ◌==◌, leb, if◌then◌else◌,
}

-- `unicode.IsSpace`
unfoldable pub is_space : ℕ → Bool
is_space c =
    (leb 9 c && leb c 13)
    || c == 0x20
    || c == 0x85
    || c == 0xa0
    || c == 0x1680
    || (leb 0x2000 c && leb c 0x200a)
    || c == 0x2028
    || c == 0x2029
    || c == 0x202f
    || c == 0x205f
    || c == 0x3000

trim_left : String → String
unfolding is_space
trim_left String.[] = String.[]
trim_left (String.◌∷◌ c s) =
    let rest = trim_left s in if is_space (code c) then rest else String.◌∷◌ c s

is_blank : String → Bool
unfolding is_space
is_blank String.[] = true
is_blank (String.◌∷◌ c s) = is_space (code c) && is_blank s

trim_right : String → String
unfolding is_blank
trim_right String.[] = String.[]
trim_right (String.◌∷◌ c s) =
    if is_blank (String.◌∷◌ c s) then String.[] else String.◌∷◌ c (trim_right s)

-- `strings.TrimSpace`
unfoldable pub trim_space : String → String
unfolding trim_left trim_right
trim_space s = trim_right (trim_left s)

nth : String → ℕ → Char → Char
nth String.[] n d = d
nth (String.◌∷◌ c s) zero d = c
nth (String.◌∷◌ c s) (suc n) d = nth s n d

lower : Char → Char
unfolding nth
lower c =
    if leb b'A' (code c) && leb (code c) b'Z'
    then nth "abcdefghijklmnopqrstuvwxyz" (code c - b'A') c
    else c

-- `strings.ToLower` on ASCII letters: other letters are left as they are.
unfoldable pub to_lower : String → String
unfolding lower
to_lower String.[] = String.[]
to_lower (String.◌∷◌ c s) = String.◌∷◌ (lower c) (to_lower s)

-- `normalizeEmail` of internal/service/auth.go
unfoldable pub normalize_email : String → String
unfolding trim_space to_lower
normalize_email email = to_lower (trim_space email)

normalize_email_padded : normalize_email " Rami@Mail.RU\n" ≡ "rami@mail.ru"
unfolding normalize_email
normalize_email_padded = refl

-- The decimal digits of a number before `rest`; a number below 10 ^ fuel has all of them.
digits : ℕ → ℕ → String → String
unfolding nth
digits zero n rest = rest
digits (suc fuel) n rest =
    let shorter = digits fuel (n / 10) (String.◌∷◌ (nth "0123456789" (n % 10) "?") rest) in
    if n == 0 then rest else shorter

-- `%d`
unfoldable pub decimal : ℕ → String
unfolding digits
decimal n = if n == 0 then "0" else digits n n ""

decimal_number : decimal 1207 ≡ "1207"
unfolding decimal
decimal_number = refl
