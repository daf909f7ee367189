-- ===== src/Repository/Task/Search.antt =====
-- The search of GET /tasks: LIKE with an escaped pattern is a search for the text itself.
use Prim.Native.Char.{Char, code}
use task_management.Base.{
  String, Bool, true, false, List, [], ◌∷◌, ◌≡◌, refl, ap, arith, ◌&&◌, ◌||◌, ◌==◌, if◌then◌else◌,
  Bool-cases, inl, inr,
}
use task_management.Repository.Task.Listing.{escape_like, joined, search_pattern}

-- A LIKE pattern as the MySQL manual has it: `%` is any text, `_` any character, and a backslash takes
-- the next character literally.
pub data Piece : Type 0 where
  any_text any_char : Piece
  literal : Char → Piece

-- The first argument tells whether a backslash stood before.
abbrev pub pieces : Bool → String → List Piece
pieces escaped String.[] = []
pieces true (String.◌∷◌ c s) = literal c ∷ pieces false s
pieces false (String.◌∷◌ c s) =
    let plain = pieces false s in
    let escaped = pieces true s in
    if code c == b'%'
    then any_text ∷ plain
    else if code c == b'_'
    then any_char ∷ plain
    else if code c == b'\\'
    then escaped
    else literal c ∷ plain

-- Does some end of the text pass the test?
abbrev pub some_end : (String → Bool) → String → Bool
some_end f String.[] = f String.[]
some_end f (String.◌∷◌ d t) = let later = some_end f t in f (String.◌∷◌ d t) || later

-- When two characters are the same is the collation's business.
module _ (same : Char → Char → Bool) where
  abbrev pub matches_pieces : List Piece → String → Bool
  matches_pieces [] String.[] = true
  matches_pieces [] (String.◌∷◌ d t) = false
  matches_pieces (any_text ∷ ps) t = some_end (matches_pieces ps) t
  matches_pieces (any_char ∷ ps) String.[] = false
  matches_pieces (any_char ∷ ps) (String.◌∷◌ d t) = matches_pieces ps t
  matches_pieces (literal c ∷ ps) String.[] = false
  matches_pieces (literal c ∷ ps) (String.◌∷◌ d t) =
      let rest = matches_pieces ps t in same c d && rest

  abbrev pub like : String → String → Bool
  like pattern t = matches_pieces (pieces false pattern) t

  abbrev pub starts_with : String → String → Bool
  starts_with String.[] t = true
  starts_with (String.◌∷◌ c s) String.[] = false
  starts_with (String.◌∷◌ c s) (String.◌∷◌ d t) = let rest = starts_with s t in same c d && rest

  -- Does the text stand somewhere in the other?
  abbrev pub contains : String → String → Bool
  contains s t = some_end (starts_with s) t

  some_end_empty : (t : String) → some_end (matches_pieces []) t ≡ true
  some_end_empty String.[] = refl
  some_end_empty (String.◌∷◌ d t) = ground (arith, some_end_empty t)

  like-escape_like : (s t : String) → like (joined (escape_like s) "%") t ≡ starts_with s t
  unfolding escape_like
  like-escape_like String.[] t = some_end_empty t
  like-escape_like (String.◌∷◌ c s) t =
      elim (Bool-cases (code c == b'\\' || code c == b'%' || code c == b'_')) [
        | inl e ↦ rw e (one c t (λ u. like-escape_like s u))
        | inr e ↦
            rw e
              (plain c t (ground arith) (ground arith) (ground arith) (λ u. like-escape_like s u))
      ]
    where
      one :
          (c : Char) (t : String)
          → ((u : String) → like (joined (escape_like s) "%") u ≡ starts_with s u)
          → matches_pieces (literal c ∷ pieces false (joined (escape_like s) "%")) t
            ≡ starts_with (String.◌∷◌ c s) t
      one c String.[] h = refl
      one c (String.◌∷◌ d u) h = ap (λ b. same c d && b) (h u)

      plain :
          (c : Char) (t : String)
          → (code c == b'%') ≡ false
          → (code c == b'_') ≡ false
          → (code c == b'\\') ≡ false
          → ((u : String) → like (joined (escape_like s) "%") u ≡ starts_with s u)
          → like (String.◌∷◌ c (joined (escape_like s) "%")) t ≡ starts_with (String.◌∷◌ c s) t
      plain c t p q r h = rw (p, q, r) (one c t h)

  -- The LIKE of a search finds exactly the titles that contain the text that is searched for, whatever
  -- special characters it has.
  pub like-search_pattern : (s t : String) → like (search_pattern s) t ≡ contains s t
  unfolding search_pattern
  like-search_pattern s t = λ i. some_end (λ u. like-escape_like s u i) t
