-- ===== src/Cache/Task/Commands.antt =====
-- What the calls of the page cache read and write.
use task_management.Base.{
  ℕ, String, Option, none, some, ◌≡◌, refl, sym, ap, arith, Bool-cases, ◌⊎◌, inl, inr,
}
use task_management.Domain.Errors.{Failure, Result, ok, err}
use task_management.Cache.Token.{Store}
use task_management.Cache.Pages.{PageKey, PageServer, counted}
use task_management.Cache.Task.{Stamp, generation, look, get, set, invalidate_team, hit_or_miss}

module _ {S P : Type 0} (server : PageServer S (Option P)) (team : ℕ) where
  abbrev pub key_of : ℕ → String → PageKey
  key_of g digest = record { team = team; generation = g; digest = digest }

  abbrev pub now_at : S → ℕ
  now_at s = counted (server.counter team s)

  hit_page :
      (g : ℕ) (o : Option (Option P)) (page : P) (stamp : Stamp)
      → hit_or_miss server g o ≡ (some page, stamp)
      → o ≡ some (some page)
  hit_page g none page stamp h = ground arith
  hit_page g (some none) page stamp h = ground arith
  hit_page g (some (some q)) page stamp h = cc

  miss_stamp :
      (g g' : ℕ) (o : Option (Option P)) → hit_or_miss server g o ≡ (none, some g') → g' ≡ g
  miss_stamp g g' none h = cc
  miss_stamp g g' (some none) h = cc
  miss_stamp g g' (some (some q)) h = ground arith

  answer_eq :
      (a b : Option P × Stamp) (w w' : Store S)
      → ◌≡◌ {A = Result (Option P × Stamp) × Store S} (ok a, w) (ok b, w')
      → a ≡ b
  answer_eq a b w w' h = cc

  number_eq : (a b : ℕ) (w w' : Store S) → ◌≡◌ {A = Result ℕ × Store S} (ok a, w) (ok b, w') → a ≡ b
  number_eq a b w w' h = cc

  -- The two commands of `get` change no key; the first answers with the generation.
  pub generation_reads :
      (w w' : Store S) (r : Result ℕ) → generation server team w ≡ (r, w') → w.keys ≡ w'.keys
  unfolding generation
  generation_reads w w' r h = elim (Bool-cases (w.down w.sent)) [
    | inl d ↦ ap (λ x. x.1.keys) (rw d at h)
    | inr d ↦ ap (λ x. x.1.keys) (rw d at h)
  ]

  pub generation_now :
      (w w' : Store S) (g : ℕ) → generation server team w ≡ (ok g, w') → g ≡ now_at w.keys
  unfolding generation
  generation_now w w' g h = elim (Bool-cases (w.down w.sent)) [
    | inl d ↦ absurd (ground arith)
    | inr d ↦ sym (number_eq _ _ _ w' (rw d at h))
  ]

  pub look_reads :
      (digest : String) (g : ℕ) (w w' : Store S) (r : Result (Option P × Stamp))
      → look server team digest g w ≡ (r, w')
      → w.keys ≡ w'.keys
  look_reads digest g w w' r h = elim (Bool-cases (w.down w.sent)) [
    | inl d ↦ ap (λ x. x.1.keys) (rw d at h)
    | inr d ↦ ap (λ x. x.1.keys) (rw d at h)
  ]

  -- The second answers with the page that is stored in that generation, or is a miss of it.
  pub look_page :
      (digest : String) (g : ℕ) (w w' : Store S) (page : P) (stamp : Stamp)
      → look server team digest g w ≡ (ok (some page, stamp), w')
      → server.get (key_of g digest) w.keys ≡ some (some page)
  look_page digest g w w' page stamp h = elim (Bool-cases (w.down w.sent)) [
    | inl d ↦ absurd (ground arith)
    | inr d ↦ hit_page g _ page stamp (answer_eq _ _ _ w' (rw d at h))
  ]

  pub look_miss :
      (digest : String) (g g' : ℕ) (w w' : Store S)
      → look server team digest g w ≡ (ok (none, some g'), w')
      → g' ≡ g
  look_miss digest g g' w w' h = elim (Bool-cases (w.down w.sent)) [
    | inl d ↦ absurd (ground arith)
    | inr d ↦ miss_stamp g g' _ (answer_eq _ _ _ w' (rw d at h))
  ]

  -- A call of `Get` that has read the generation is its second command.
  get-look :
      (digest : String) (g : ℕ) (w w' : Store S)
      → generation server team w ≡ (ok g, w')
      → get server team digest w ≡ look server team digest g w'
  unfolding get
  get-look digest g w w' h = rw h refl

  -- `InvalidateTeam` that returns has sent its INCR; one that fails has changed no key.
  pub invalidate_ok :
      (w w' : Store S)
      → invalidate_team server team w ≡ (ok tt, w')
      → w'.keys ≡ server.incr team w.keys
  unfolding invalidate_team
  invalidate_ok w w' h = elim (Bool-cases (w.down w.sent)) [
    | inl d ↦ absurd (ground arith)
    | inr d ↦ sym (ap (λ x. x.1.keys) (rw d at h))
  ]

  pub invalidate_err :
      (w w' : Store S) (e : Failure)
      → invalidate_team server team w ≡ (err e, w')
      → w'.keys ≡ w.keys
  unfolding invalidate_team
  invalidate_err w w' e h = elim (Bool-cases (w.down w.sent)) [
    | inl d ↦ sym (ap (λ x. x.1.keys) (rw d at h))
    | inr d ↦ absurd (ground arith)
  ]

  pub set_keys :
      (digest : String) (g : ℕ) (page : P) (w : Store S)
      → ((set server team digest (some g) page w).1.keys ≡ w.keys)
        ⊎ ((set server team digest (some g) page w).1.keys
            ≡ server.set (key_of g digest) (some page) w.keys)
  unfolding set
  set_keys digest g page w = elim (Bool-cases (w.down w.sent)) [
    | inl d ↦ inl (rw d refl)
    | inr d ↦ inr (rw d refl)
  ]
