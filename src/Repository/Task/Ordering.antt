-- ===== src/Repository/Task/Ordering.antt =====
-- ORDER BY is a strict total order on rows with different ids, so a sorted list has no ties.
use task_management.Base.{
  ℕ, Bool, true, false, List, [], ◌∷◌, ◌++◌, ◌≡◌, ◌≢◌, refl, ◌&&◌, arith, sym, ap, ◌∙◌, All,
  Bool-cases, inl, inr, keep,
}
use task_management.Domain.Task.{Task}
use task_management.Domain.Listing.{Sort}
use task_management.Repository.Task.Listing.{comes_first, place, sorted}

-- A strict order that tells any two rows with different ids apart.
pub record IsTotal (first : Task → Task → Bool) : Type 0 where
  pub irreflexive : (t : Task) → first t t ≡ false
  pub transitive : (t u v : Task) → first t u ≡ true → first u v ≡ true → first t v ≡ true
  pub total : (t u : Task) → t.id ≢ u.id → first t u ≡ false → first u t ≡ true

-- Every ORDER BY ends with the id, so it is total.
pub comes_first-IsTotal : (s : Sort) (up : Bool) → IsTotal (comes_first s up)
comes_first-IsTotal s up = record {
  irreflexive = λ t. ground arith;
  transitive = λ t u v a b. ground arith;
  total = λ t u ne h. ground arith;
}

-- No row's id stands in the list.
abbrev pub Absent : ℕ → List Task → Type 0
Absent id = All (λ u. id ≢ u.id)

abbrev pub HasKeys : List Task → Type 0
HasKeys [] = Unit
HasKeys (t ∷ ts) = Absent t.id ts × HasKeys ts

module _ (first : Task → Task → Bool) where
  -- Each row comes before all that follow it.
  abbrev pub IsSorted : List Task → Type 0
  IsSorted [] = Unit
  IsSorted (t ∷ ts) = All (λ u. first t u ≡ true) ts × IsSorted ts

module _ (P : Task → Type 0) where
  All-place :
      (first : Task → Task → Bool) (t : Task) (ts : List Task)
      → P t
      → All P ts
      → All P (place first t ts)
  All-place first t [] p h = (p, tt)
  All-place first t (u ∷ us) p h = elim (Bool-cases (first t u)) [
    | inl e ↦ rw e (p, (h.0, h.1))
    | inr e ↦ rw e (h.0, All-place first t us p h.1)
  ]

  pub All-sorted :
      (first : Task → Task → Bool) (ts : List Task) → All P ts → All P (sorted first ts)
  All-sorted first [] h = tt
  All-sorted first (t ∷ ts) h = All-place first t (sorted first ts) h.0 (All-sorted first ts h.1)

  pub All-keep : (p : Task → Bool) (ts : List Task) → All P ts → All P (keep p ts)
  All-keep p [] h = tt
  All-keep p (t ∷ ts) h = elim (Bool-cases (p t)) [
    | inl e ↦ rw e (h.0, All-keep p ts h.1)
    | inr e ↦ rw e (All-keep p ts h.1)
  ]

pub keep-HasKeys : (p : Task → Bool) (ts : List Task) → HasKeys ts → HasKeys (keep p ts)
keep-HasKeys p [] h = tt
keep-HasKeys p (t ∷ ts) h = elim (Bool-cases (p t)) [
  | inl e ↦ rw e (All-keep (λ u. t.id ≢ u.id) p ts h.0, keep-HasKeys p ts h.1)
  | inr e ↦ rw e (keep-HasKeys p ts h.1)
]

module _ {P Q : Task → Type 0} where
  All-map : (ts : List Task) → ((t : Task) → P t → Q t) → All P ts → All Q ts
  All-map [] f h = tt
  All-map (t ∷ ts) f h = (f t h.0, All-map ts f h.1)

module _ (first : Task → Task → Bool) (order : IsTotal first) where
  place-IsSorted :
      (t : Task) (ts : List Task)
      → Absent t.id ts
      → IsSorted first ts
      → IsSorted first (place first t ts)
  place-IsSorted t [] a h = (tt, tt)
  place-IsSorted t (u ∷ us) a h = elim (Bool-cases (first t u)) [
    | inl e ↦ rw e ((e, All-map us (λ v. order.transitive t u v e) h.0), h)
    | inr e ↦ rw e (
      All-place (λ v. first u v ≡ true) first t us (order.total t u a.0 e) h.0,
      place-IsSorted t us a.1 h.1,
    )
  ]

  pub sorted-IsSorted : (ts : List Task) → HasKeys ts → IsSorted first (sorted first ts)
  sorted-IsSorted [] k = tt
  sorted-IsSorted (t ∷ ts) k =
      place-IsSorted t (sorted first ts) (All-sorted (λ u. t.id ≢ u.id) first ts k.0)
        (sorted-IsSorted ts k.1)

module _ (p : Task → Bool) where
  keep-All : (ts : List Task) → All (λ t. p t ≡ true) ts → keep p ts ≡ ts
  keep-All [] h = refl
  keep-All (t ∷ ts) h = ground (arith, keep-All ts h.1)

  keep_none : (ts : List Task) → All (λ t. p t ≡ false) ts → keep p ts ≡ []
  keep_none [] h = refl
  keep_none (t ∷ ts) h = ground (arith, keep_none ts h.1)

  keep-append : (ts us : List Task) → keep p (ts ++ us) ≡ keep p ts ++ keep p us
  keep-append [] us = refl
  keep-append (t ∷ ts) us = ground (arith, keep-append ts us)

pub keep_everything : (ts : List Task) → keep (λ t. true) ts ≡ ts
keep_everything [] = refl
keep_everything (t ∷ ts) = ap (λ us. t ∷ us) (keep_everything ts)

pub keep-keep :
    (p q : Task → Bool) (ts : List Task) → keep q (keep p ts) ≡ keep (λ t. p t && q t) ts
keep-keep p q [] = refl
keep-keep p q (t ∷ ts) = ground (arith, keep-keep p q ts)

module _ (first : Task → Task → Bool) (order : IsTotal first) (p : Task → Bool) where
  place_front :
      (t : Task) (ts : List Task) → All (λ u. first t u ≡ true) ts → place first t ts ≡ t ∷ ts
  place_front t [] h = refl
  place_front t (u ∷ us) h = rw h.0 refl

  keep-place :
      (t : Task) (ts : List Task)
      → p t ≡ true
      → IsSorted first ts
      → keep p (place first t ts) ≡ place first t (keep p ts)
  keep-place t [] e h = rw e refl
  keep-place t (u ∷ us) e h = elim (Bool-cases (first t u)) [
    | inl f ↦
        rw (f, e)
          (sym (
            place_front t (keep p (u ∷ us)) (
              All-keep (λ v. first t v ≡ true) p (u ∷ us)
                (f, All-map us (λ v. order.transitive t u v f) h.0))))
    | inr f ↦ ground (arith, keep-place t us e h.1)
  ]

  keep-place_out : (t : Task) (ts : List Task) → p t ≡ false → keep p (place first t ts) ≡ keep p ts
  keep-place_out t [] e = rw e refl
  keep-place_out t (u ∷ us) e = ground (arith, keep-place_out t us e)

  -- Selecting rows and sorting them may change places.
  pub keep-sorted :
      (ts : List Task) → HasKeys ts → keep p (sorted first ts) ≡ sorted first (keep p ts)
  keep-sorted [] k = refl
  keep-sorted (t ∷ ts) k = elim (Bool-cases (p t)) [
    | inl e ↦ rw e (
        keep-place t (sorted first ts) e (sorted-IsSorted first order ts k.1)
        ∙ ap (place first t) (keep-sorted ts k.1))
    | inr e ↦ rw e (keep-place_out t (sorted first ts) e ∙ keep-sorted ts k.1)
  ]

module _ (first : Task → Task → Bool) (order : IsTotal first) where
  behind :
      (t : Task) (pre post : List Task)
      → IsSorted first (pre ++ t ∷ post)
      → All (λ u. first t u ≡ false) pre
  behind t [] post h = tt
  behind t (u ∷ us) post h = (not_back u t (hit us h.0), behind t us post h.1)
    where
      hit : (us : List Task) → All (λ v. first u v ≡ true) (us ++ t ∷ post) → first u t ≡ true
      hit [] a = a.0
      hit (v ∷ vs) a = hit vs a.1

      clash : (b : Bool) → (b ≡ true → ⊥) → b ≡ false
      clash true f = elim (f refl) [ ]
      clash false f = refl

      not_back : (u t : Task) → first u t ≡ true → first t u ≡ false
      not_back u t e =
          clash (first t u) λ f. ground (arith, order.transitive u t u e f, order.irreflexive u)

  ahead :
      (t : Task) (pre post : List Task)
      → IsSorted first (pre ++ t ∷ post)
      → All (λ u. first t u ≡ true) post
  ahead t [] post h = h.0
  ahead t (u ∷ us) post h = ahead t us post h.1

  -- In a sorted list, the rows that a row comes before are those that stand after it.
  pub keep_rest :
      (t : Task) (pre post : List Task)
      → IsSorted first (pre ++ t ∷ post)
      → keep (first t) (pre ++ t ∷ post) ≡ post
  keep_rest t pre post h =
      keep-append (first t) pre (t ∷ post)
      ∙ ap (λ ts. ts ++ keep (first t) (t ∷ post)) (keep_none (first t) pre (behind t pre post h))
      ∙ rw (order.irreflexive t) (keep-All (first t) post (ahead t pre post h))
