-- ===== src/Repository/Team/Stats/Performers.antt =====
-- Who is a top performer.
use mathlib.Core.Path.{subst, sym}
use task_management.Base.{
  ℕ, zero, suc, ◌≤◌, String, Bool, true, false, List, [], ◌∷◌, ◌≡◌, refl, ◌⊎◌, inl, inr, arith,
  ◌==◌, length, take, All, Bool-cases,
}
use task_management.Domain.Team.{User}
use task_management.Domain.Task.{Task}
use task_management.Domain.Stats.{TopPerformer}
use task_management.Database.Tables.{Db}
use task_management.Repository.Team.Stats.{
  team_tasks, closed_count, performers, performer_first, place_performer, ranked_performers,
  stats_of,
}

-- The user stands in the list, with this count.
abbrev pub Listed : ℕ → ℕ → List TopPerformer → Type 0
Listed u n [] = ⊥
Listed u n (p ∷ ps) = ((p.user_id ≡ u) × (p.closed_tasks ≡ n)) ⊎ Listed u n ps

All-map :
    {A : Type 0} {P Q : A → Type 0} (xs : List A) → ((x : A) → P x → Q x) → All P xs → All Q xs
All-map [] f h = tt
All-map (x ∷ xs) f h = (f x h.0, All-map xs f h.1)

-- The most come first.
abbrev pub Descending : List TopPerformer → Type 0
Descending [] = Unit
Descending (p ∷ ps) = All (λ q. q.closed_tasks ≤ p.closed_tasks) ps × Descending ps

-- A user without a closed task is in no group, and every other is.
abbrev Grouped : ℕ → List Task → List TopPerformer → User → Type 0
Grouped now ts ps u = (closed_count now u.id ts ≡ 0) ⊎ Listed u.id (closed_count now u.id ts) ps

performers-Grouped :
    (now : ℕ) (ts : List Task) (us : List User) → All (Grouped now ts (performers now ts us)) us
performers-Grouped now ts [] = tt
performers-Grouped now ts (u ∷ us) = elim (Bool-cases (closed_count now u.id ts == 0)) [
  | inl e ↦
      subst (λ ps. All (Grouped now ts ps) (u ∷ us)) (sym (out e))
        (inl (zero_of (closed_count now u.id ts) e), performers-Grouped now ts us)
  | inr e ↦
      subst (λ ps. All (Grouped now ts ps) (u ∷ us)) (sym (grouped e))
        (inr (inl (refl, refl)), All-map us (further mine) (performers-Grouped now ts us))
]
  where
    zero_of : (n : ℕ) → (n == 0) ≡ true → n ≡ 0
    zero_of n h = ground arith

    out : (closed_count now u.id ts == 0) ≡ true → performers now ts (u ∷ us) ≡ performers now ts us
    out e = rw e refl

    grouped :
        (closed_count now u.id ts == 0) ≡ false
        → performers now ts (u ∷ us)
          ≡ record { user_id = u.id; user_name = u.name; closed_tasks = closed_count now u.id ts }
            ∷ performers now ts us
    grouped e = rw e refl

    mine : TopPerformer
    mine = record { user_id = u.id; user_name = u.name; closed_tasks = closed_count now u.id ts }

    further :
        (p : TopPerformer) (v : User)
        → Grouped now ts (performers now ts us) v
        → Grouped now ts (p ∷ performers now ts us) v
    further p v (inl h) = inl h
    further p v (inr h) = inr (inr h)

module _ (name_first : String → String → Bool) where
  place-All :
      (P : TopPerformer → Type 0) (p : TopPerformer) (ps : List TopPerformer)
      → P p
      → All P ps
      → All P (place_performer name_first p ps)
  place-All P p [] h k = (h, tt)
  place-All P p (q ∷ qs) h k = elim (Bool-cases (performer_first name_first p q)) [
    | inl e ↦ rw e (h, k)
    | inr e ↦ rw e (k.0, place-All P p qs h k.1)
  ]

  first_more :
      (p q : TopPerformer) → performer_first name_first p q ≡ true → q.closed_tasks ≤ p.closed_tasks
  first_more p q h = ground arith

  other_more :
      (p q : TopPerformer)
      → performer_first name_first p q ≡ false
      → p.closed_tasks ≤ q.closed_tasks
  other_more p q h = ground arith

  place-Descending :
      (p : TopPerformer) (ps : List TopPerformer)
      → Descending ps
      → Descending (place_performer name_first p ps)
  place-Descending p [] h = (tt, tt)
  place-Descending p (q ∷ qs) h = elim (Bool-cases (performer_first name_first p q)) [
    | inl e ↦
        rw e ((first_more p q e, All-map qs (λ r le. omega (arith, le, first_more p q e)) h.0), h)
    | inr e ↦ rw e (
      place-All (λ r. r.closed_tasks ≤ q.closed_tasks) p qs (other_more p q e) h.0,
      place-Descending p qs h.1,
    )
  ]

  ranked-Descending : (ps : List TopPerformer) → Descending (ranked_performers name_first ps)
  ranked-Descending [] = tt
  ranked-Descending (p ∷ ps) =
      place-Descending p (ranked_performers name_first ps) (ranked-Descending ps)

  Listed-placed :
      (u n : ℕ) (p : TopPerformer) (ps : List TopPerformer)
      → Listed u n (p ∷ ps)
      → Listed u n (place_performer name_first p ps)
  Listed-placed u n p [] h = h
  Listed-placed u n p (q ∷ qs) h = elim (Bool-cases (performer_first name_first p q)) [
    | inl e ↦ rw e h
    | inr e ↦ rw e (swap (Listed-placed u n p qs) h)
  ]
    where
      swap :
          (Listed u n (p ∷ qs) → Listed u n (place_performer name_first p qs))
          → Listed u n (p ∷ q ∷ qs)
          → Listed u n (q ∷ place_performer name_first p qs)
      swap placed (inl a) = inr (placed (inl a))
      swap placed (inr (inl b)) = inl b
      swap placed (inr (inr c)) = inr (placed (inr c))

  Listed-ranked :
      (u n : ℕ) (ps : List TopPerformer)
      → Listed u n ps
      → Listed u n (ranked_performers name_first ps)
  Listed-ranked u n [] h = h
  Listed-ranked u n (p ∷ ps) (inl a) = Listed-placed u n p (ranked_performers name_first ps) (inl a)
  Listed-ranked u n (p ∷ ps) (inr b) =
      Listed-placed u n p (ranked_performers name_first ps) (inr (Listed-ranked u n ps b))

-- The list is full, with users who have closed as many.
abbrev pub Full : ℕ → ℕ → List TopPerformer → Type 0
Full k n ps = (length ps ≡ k) × All (λ p. n ≤ p.closed_tasks) ps

Listed-least :
    (u n m : ℕ) (ps : List TopPerformer) → All (λ q. q.closed_tasks ≤ m) ps → Listed u n ps → n ≤ m
Listed-least u n m [] h l = elim l [ ]
Listed-least u n m (p ∷ ps) h (inl a) = omega (arith, h.0, a.1)
Listed-least u n m (p ∷ ps) h (inr b) = Listed-least u n m ps h.1 b

Listed-take :
    (k u n : ℕ) (ps : List TopPerformer)
    → Descending ps
    → Listed u n ps
    → Listed u n (take k ps) ⊎ Full k n (take k ps)
Listed-take zero u n ps d l = inr (refl, tt)
Listed-take (suc k) u n [] d l = elim l [ ]
Listed-take (suc k) u n (p ∷ ps) d (inl a) = inl (inl a)
Listed-take (suc k) u n (p ∷ ps) d (inr b) = further (Listed-take k u n ps d.1 b)
  where
    further :
        Listed u n (take k ps) ⊎ Full k n (take k ps)
        → Listed u n (p ∷ take k ps) ⊎ Full (suc k) n (p ∷ take k ps)
    further (inl c) = inl (inr c)
    further (inr f) = inr (omega (arith, f.0), (Listed-least u n p.closed_tasks ps d.0 b, f.1))

length-take : (k : ℕ) (ps : List TopPerformer) → length (take k ps) ≤ k
length-take zero ps = omega arith
length-take (suc k) [] = omega arith
length-take (suc k) (p ∷ ps) = omega (arith, length-take k ps)

take-Descending : (k : ℕ) (ps : List TopPerformer) → Descending ps → Descending (take k ps)
take-Descending zero ps h = tt
take-Descending (suc k) [] h = tt
take-Descending (suc k) (p ∷ ps) h = (All-take k ps h.0, take-Descending k ps h.1)
  where
    All-take :
        (j : ℕ) (qs : List TopPerformer)
        → All (λ q. q.closed_tasks ≤ p.closed_tasks) qs
        → All (λ q. q.closed_tasks ≤ p.closed_tasks) (take j qs)
    All-take zero qs a = tt
    All-take (suc j) [] a = tt
    All-take (suc j) (q ∷ qs) a = (a.0, All-take j qs a.1)

module _ (name_first : String → String → Bool) where
  -- The top performers are at most three, the one with the most closed tasks first; and of every
  -- user of the table who has closed a task of the team in the last 30 days, either he is among them
  -- with the number of these tasks, or they are three who have closed as many each.
  pub stats_of-performers :
      (now t : ℕ) (b : Db)
      → (length (stats_of name_first now t b).top_performers ≤ 3)
        × Descending (stats_of name_first now t b).top_performers
        × All
            (λ u.
              (closed_count now u.id (team_tasks t b.tasks) ≡ 0)
              ⊎ Listed u.id
                  (closed_count now u.id (team_tasks t b.tasks))
                  (stats_of name_first now t b).top_performers
              ⊎ Full 3
                  (closed_count now u.id (team_tasks t b.tasks))
                  (stats_of name_first now t b).top_performers)
            b.users
  unfolding stats_of
  stats_of-performers now t b = (
    length-take 3 _,
    take-Descending 3 _ (ranked-Descending name_first (performers now ts b.users)),
    All-map b.users best (performers-Grouped now ts b.users),
  )
    where
      ts : List Task
      ts = team_tasks t b.tasks

      ps : List TopPerformer
      ps = performers now ts b.users

      best :
          (u : User)
          → Grouped now ts ps u
          → (closed_count now u.id ts ≡ 0)
            ⊎ Listed u.id (closed_count now u.id ts) (take 3 (ranked_performers name_first ps))
            ⊎ Full 3 (closed_count now u.id ts) (take 3 (ranked_performers name_first ps))
      best u (inl none) = inl none
      best u (inr l) = inr (
          Listed-take 3 u.id _ (ranked_performers name_first ps) (ranked-Descending name_first ps)
            (Listed-ranked name_first u.id _ ps l))
