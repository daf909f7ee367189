-- ===== src/Cache/Task/Floors.antt =====
-- How old the pages of each generation of a team may be, and what keeps them so.
use mathlib.Core.Path.{subst}
use task_management.Base.{
  ℕ, suc, ◌≤◌, String, Option, none, some, ◌≡◌, refl, sym, ap, ◌∙◌, arith, ◌==◌, Bool-cases, inl,
  inr, if◌then◌else◌,
}
use task_management.Cache.Token.{Store}
use task_management.Cache.Pages.{PageKey, PageServer, counted}
use task_management.Cache.Task.{Stamp, set}
use task_management.Cache.Pages.Keys.{same_key}
use task_management.Cache.Task.Interleave.{Reader, idle, asked, missed, holds, Moment, assign}
use task_management.Cache.Task.Commands.{key_of, now_at, set_keys}

module _ {S P : Type 0} (server : PageServer S (Option P)) (team : ℕ) (made_at : P → ℕ) where
  -- A generation has a floor: the number of changes at the invalidation that began it. No page of the
  -- generation is older.
  abbrev pub NotStale : (ℕ → ℕ) → ℕ → ℕ → P → Type 0
  NotStale floors gen g page = (g ≤ gen) × (floors g ≤ made_at page)

  abbrev pub ReaderIsFresh : (ℕ → ℕ) → ℕ → Reader P → Type 0
  ReaderIsFresh floors gen (asked g digest since) = (g ≤ gen) × (since ≤ floors g)
  ReaderIsFresh floors gen (missed (some g) digest) = g ≤ gen
  ReaderIsFresh floors gen (holds (some g) digest page) = NotStale floors gen g page
  ReaderIsFresh floors gen _ = Unit

  pub record FreshAt (floors : ℕ → ℕ) (s : S) (floor changes : ℕ) (readers : ℕ → Reader P)
      : Type 0 where
    pub floor_le : floor ≤ changes
    pub floor_is : floors (now_at server team s) ≡ floor
    pub floors_le : (g : ℕ) → g ≤ now_at server team s → floors g ≤ changes
    pub pages :
        (g : ℕ) (digest : String) (page : P)
        → server.get (key_of server team g digest) s ≡ some (some page)
        → NotStale floors (now_at server team s) g page
    pub readers_fresh : (r : ℕ) → ReaderIsFresh floors (now_at server team s) (readers r)

  abbrev pub IsFresh : Moment S P → Type 0
  IsFresh m = (floors : ℕ → ℕ) × FreshAt floors m.store.keys m.floor m.changes m.readers

  pub assign_fresh :
      (f : ℕ → ℕ) (s : S) (l c r : ℕ) (x : Reader P) (rs : ℕ → Reader P)
      → FreshAt f s l c rs
      → ReaderIsFresh f (now_at server team s) x
      → FreshAt f s l c (assign r x rs)
  assign_fresh f s l c r x rs h k = record {
    floor_le = h.floor_le;
    floor_is = h.floor_is;
    floors_le = h.floors_le;
    pages = h.pages;
    readers_fresh =
        λ i. elim (Bool-cases (i == r)) [ inl e ↦ rw e k | inr e ↦ rw e (h.readers_fresh i) ];
  }

  -- The next generation begins with the floor c.
  abbrev pub raise : (ℕ → ℕ) → ℕ → ℕ → ℕ → ℕ
  raise f n c g = if g == suc n then c else f g

  raise-old : (f : ℕ → ℕ) (n c g : ℕ) → g ≤ n → raise f n c g ≡ f g
  raise-old f n c g h = ground (arith, h)

  raise-new : (f : ℕ → ℕ) (n c : ℕ) → raise f n c (suc n) ≡ c
  raise-new f n c = ground arith

  raise-le : (f : ℕ → ℕ) (n c g : ℕ) → ((i : ℕ) → i ≤ n → f i ≤ c) → g ≤ suc n → raise f n c g ≤ c
  raise-le f n c g h k = elim (Bool-cases (g == suc n)) [
    | inl e ↦ ground arith
    | inr e ↦ rw e (h g (ground (arith, e)))
  ]

  later_page :
      (f : ℕ → ℕ) (n c g : ℕ) (p : P) → NotStale f n g p → NotStale (raise f n c) (suc n) g p
  later_page f n c g p h = (omega (arith, h.0), omega (arith, raise-old f n c g h.0, h.1))

  later_reader :
      (f : ℕ → ℕ) (n c : ℕ) (x : Reader P)
      → ReaderIsFresh f n x
      → ReaderIsFresh (raise f n c) (suc n) x
  later_reader f n c idle h = tt
  later_reader f n c (asked g d since) h =
      (omega (arith, h.0), omega (arith, raise-old f n c g h.0, h.1))
  later_reader f n c (missed none d) h = tt
  later_reader f n c (missed (some g) d) h = omega (arith, h)
  later_reader f n c (holds none d p) h = tt
  later_reader f n c (holds (some g) d p) h = later_page f n c g p h

  now_at-incr : (s : S) → now_at server team (server.incr team s) ≡ suc (now_at server team s)
  now_at-incr s = ap counted (server.counter_incr team s)

  pub incr_fresh :
      (f : ℕ → ℕ) (s : S) (l c : ℕ) (rs : ℕ → Reader P)
      → FreshAt f s l c rs
      → FreshAt (raise f (now_at server team s) c) (server.incr team s) c c rs
  incr_fresh f s l c rs h = record {
    floor_le = omega arith;
    floor_is = rw (now_at-incr s) (raise-new f (now_at server team s) c);
    floors_le = rw (now_at-incr s) (λ g k. raise-le f (now_at server team s) c g h.floors_le k);
    pages = λ g d p e. rw (now_at-incr s) (
        later_page f (now_at server team s) c g p
          (h.pages g d p (sym (server.get_incr team (key_of server team g d) s) ∙ e)));
    readers_fresh = λ r.
        rw (now_at-incr s) (later_reader f (now_at server team s) c (rs r) (h.readers_fresh r));
  }

  same_page : (p q : P) → ◌≡◌ {A = Option (Option P)} (some (some p)) (some (some q)) → p ≡ q
  same_page p q h = cc

  set_fresh :
      (f : ℕ → ℕ) (s : S) (l c g : ℕ) (d : String) (p : P) (rs : ℕ → Reader P)
      → FreshAt f s l c rs
      → NotStale f (now_at server team s) g p
      → FreshAt f (server.set (key_of server team g d) (some p) s) l c rs
  set_fresh f s l c g d p rs h k = record {
    floor_le = h.floor_le;
    floor_is = rw (server.counter_set team (key_of server team g d) (some p) s) h.floor_is;
    floors_le = rw (server.counter_set team (key_of server team g d) (some p) s) h.floors_le;
    pages = λ g' d' p' e.
        rw (server.counter_set team (key_of server team g d) (some p) s)
          (elim (same_key (key_of server team g' d') (key_of server team g d)) [
            | inl same ↦
                let put : server.get (key_of server team g' d')
                      (server.set (key_of server team g d) (some p) s)
                    ≡ some (some p) =
                  ap (λ j. server.get j (server.set (key_of server team g d) (some p) s)) same
                  ∙ server.get_set (key_of server team g d) (some p) s in
                subst (λ x. NotStale f (now_at server team s) x p')
                  (sym (ap (λ j. j.generation) same))
                  (subst (λ x. NotStale f (now_at server team s) g x) (same_page p p' (sym put ∙ e))
                    k)
            | inr other ↦ h.pages g' d' p' (
                sym (
                  server.get_set_ne (key_of server team g d) (key_of server team g' d') (some p) s
                    other)
                ∙ e)
          ]);
    readers_fresh =
        λ r. rw (server.counter_set team (key_of server team g d) (some p) s) (h.readers_fresh r);
  }

  pub drop_fresh :
      (f : ℕ → ℕ) (s : S) (l c : ℕ) (k : PageKey) (rs : ℕ → Reader P)
      → FreshAt f s l c rs
      → FreshAt f (server.drop k s) l c rs
  drop_fresh f s l c k rs h = record {
    floor_le = h.floor_le;
    floor_is = rw (server.counter_drop team k s) h.floor_is;
    floors_le = rw (server.counter_drop team k s) h.floors_le;
    pages = λ g d p e.
        rw (server.counter_drop team k s) (elim (same_key (key_of server team g d) k) [
          | inl same ↦ absurd (
              gone p (
                sym (server.get_drop k s)
                ∙ sym (ap (λ j. server.get j (server.drop k s)) same)
                ∙ e))
          | inr other ↦
              h.pages g d p (sym (server.get_drop_ne k (key_of server team g d) s other) ∙ e)
        ]);
    readers_fresh = λ r. rw (server.counter_drop team k s) (h.readers_fresh r);
  }
    where
      gone : (p : P) → ◌≡◌ {A = Option (Option P)} none (some (some p)) → ⊥
      gone p e = ground arith

  pub missed_fresh :
      (f : ℕ → ℕ) (s : S) (d : String) (stamp : Stamp)
      → ((g : ℕ) → stamp ≡ some g → g ≤ now_at server team s)
      → ReaderIsFresh f (now_at server team s) (missed stamp d)
  missed_fresh f s d none h = tt
  missed_fresh f s d (some g) h = h g refl

  pub holds_fresh :
      (f : ℕ → ℕ) (s : S) (c : ℕ) (d : String) (stamp : Stamp) (p : P)
      → ReaderIsFresh f (now_at server team s) (missed stamp d)
      → ((g : ℕ) → g ≤ now_at server team s → f g ≤ c)
      → made_at p ≡ c
      → ReaderIsFresh f (now_at server team s) (holds stamp d p)
  holds_fresh f s c d none p h k at = tt
  holds_fresh f s c d (some g) p h k at = (h, omega (arith, k g h, at))

  pub stored_fresh :
      (f : ℕ → ℕ) (w : Store S) (l c : ℕ) (d : String) (stamp : Stamp) (p : P) (rs : ℕ → Reader P)
      → FreshAt f w.keys l c rs
      → ReaderIsFresh f (now_at server team w.keys) (holds stamp d p)
      → FreshAt f (set server team d stamp p w).1.keys l c rs
  unfolding set
  stored_fresh f w l c d none p rs h k = h
  stored_fresh f w l c d (some g) p rs h k = elim (set_keys server team d g p w) [
    | inl e ↦ subst (λ s. FreshAt f s l c rs) (sym e) h
    | inr e ↦ subst (λ s. FreshAt f s l c rs) (sym e) (set_fresh f w.keys l c g d p rs h k)
  ]
