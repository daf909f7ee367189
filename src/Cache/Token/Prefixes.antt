-- ===== src/Cache/Token/Prefixes.antt =====
-- The two kinds of keys of internal/cache/token.go do not meet.
use Prim.Native.Char.{Char, code}
use Prim.Native.String.{◌++◌ as concat}
use text.Mathlib.TextLemmas.{append_assoc, append_cancel_left, cons-append}
use task_management.Base.{ℕ, String, ◌≡◌, ◌≢◌, refl, arith, ap, sym, ◌∙◌}
use task_management.Cache.Token.{refresh_token_key, access_token_key}

first : String → ℕ
first String.[] = 0
first (String.◌∷◌ c s) = code c

first-concat : (c : Char) (s t : String) → first (concat (String.◌∷◌ c s) t) ≡ code c
unfolding first
first-concat c s t = rw (cons-append c s t) refl

pub access_token_key-ne : (a b : String) → access_token_key a ≢ refresh_token_key b
unfolding first
access_token_key-ne a b e = differ (
    sym (first-concat "b" "l:" a)
    ∙ ap first (
        append_cancel_left "auth:" (concat "bl:" a) (concat "refresh:" b)
          (sym (append_assoc "auth:" "bl:" a) ∙ e ∙ append_assoc "auth:" "refresh:" b))
    ∙ first-concat "r" "efresh:" b)
  where
    differ : ◌≢◌ {A = ℕ} b'b' b'r'
    differ h = ground arith
