-- ===== src/Cache/Task/Fresh.antt =====
-- No page that a `Get` serves is older than the last invalidation before it began.
use mathlib.Core.Path.{subst}
use task_management.Base.{ℕ, ◌≤◌, String, Option, none, some, ◌≡◌, refl, sym, ap, ◌∙◌, arith}
use task_management.Domain.Errors.{ok, err}
use task_management.Cache.Token.{Store}
use task_management.Cache.Pages.{PageServer}
use task_management.Cache.Task.{Stamp, generation, look, invalidate_team}
use task_management.Cache.Task.Interleave.{
  Reader, idle, asked, missed, holds, Moment, assign, Step, change, invalidate, invalidation_fails,
  ask, ask_fails, hit, miss, look_fails, read, store_page, lapse, Reach, here, next,
}
use task_management.Cache.Task.Commands.{
  key_of, now_at, generation_reads, generation_now, look_reads, look_page, look_miss, invalidate_ok,
  invalidate_err,
}
use task_management.Cache.Task.Floors.{
  ReaderIsFresh, FreshAt, IsFresh, assign_fresh, raise, incr_fresh, drop_fresh, missed_fresh,
  holds_fresh, stored_fresh,
}

module _ {S P : Type 0} (server : PageServer S (Option P)) (team : ℕ) (made_at : P → ℕ) where
  module _ (m : Moment S P) (f : ℕ → ℕ)
      (h : FreshAt server team made_at f m.store.keys m.floor m.changes m.readers) where
    -- The reader r comes to be x, and no key changes.
    moves_to :
        (r : ℕ) (x : Reader P) (w : Store S)
        → m.store.keys ≡ w.keys
        → ReaderIsFresh server team made_at f (now_at server team m.store.keys) x
        → IsFresh server team made_at (record m { store = w; readers = assign r x m.readers })
    moves_to r x w same k = (
      f,
      subst (λ s. FreshAt server team made_at f s m.floor m.changes (assign r x m.readers)) same
          (assign_fresh server team made_at f m.store.keys m.floor m.changes r x m.readers h k),
    )

    was_fresh :
        (r : ℕ) (x : Reader P)
        → m.readers r ≡ x
        → ReaderIsFresh server team made_at f (now_at server team m.store.keys) x
    was_fresh r x was =
        subst (ReaderIsFresh server team made_at f (now_at server team m.store.keys)) was
          (h.readers_fresh r)

    miss_fresh :
        (r : ℕ) (d : String) (gen since : ℕ) (stamp : Stamp) (w : Store S)
        → m.readers r ≡ asked gen d since
        → look server team d gen m.store ≡ (ok (none, stamp), w)
        → ReaderIsFresh server team made_at f (now_at server team m.store.keys) (missed stamp d)
    miss_fresh r d gen since stamp w was e =
        missed_fresh server team made_at f m.store.keys d stamp λ g s. omega (
          arith,
          look_miss server team d gen g m.store w (e ∙ ap (λ x. (ok (none, x), w)) s),
          (was_fresh r (asked gen d since) was).0,
        )

  pub Step-IsFresh :
      {m m' : Moment S P}
      → Step server team made_at m m'
      → IsFresh server team made_at m
      → IsFresh server team made_at m'
  Step-IsFresh {m} change (f, h) = (
    f,
    record {
      floor_le = omega (arith, h.floor_le);
      floor_is = h.floor_is;
      floors_le = λ g k. omega (arith, h.floors_le g k);
      pages = h.pages;
      readers_fresh = h.readers_fresh;
    },
  )
  Step-IsFresh {m} (invalidate w e) (f, h) = (
    raise server team made_at f (now_at server team m.store.keys) m.changes,
    subst
        (λ s.
          FreshAt server team made_at
            (raise server team made_at f (now_at server team m.store.keys) m.changes) s m.changes
            m.changes m.readers)
        (sym (invalidate_ok server team m.store w e))
        (incr_fresh server team made_at f m.store.keys m.floor m.changes m.readers h),
  )
  Step-IsFresh {m} (invalidation_fails x w e) (f, h) = (
    f,
    subst (λ s. FreshAt server team made_at f s m.floor m.changes m.readers)
        (sym (invalidate_err server team m.store w x e)) h,
  )
  Step-IsFresh {m} (ask r d gen w e) (f, h) =
      moves_to m f h r (asked gen d m.floor) w (generation_reads server team m.store w (ok gen) e) (
        let is : gen ≡ now_at server team m.store.keys =
          generation_now server team m.store w gen e in
        (omega (arith, is), omega (arith, ap f is, h.floor_is)))
  Step-IsFresh {m} (ask_fails r d x w e) (f, h) =
      moves_to m f h r (missed none d) w (generation_reads server team m.store w (err x) e) tt
  Step-IsFresh {m} (hit r d gen since p stamp w was e) (f, h) =
      moves_to m f h r idle w (look_reads server team d gen m.store w (ok (some p, stamp)) e) tt
  Step-IsFresh {m} (miss r d gen since stamp w was e) (f, h) =
      moves_to m f h r (missed stamp d) w
        (look_reads server team d gen m.store w (ok (none, stamp)) e)
        (miss_fresh m f h r d gen since stamp w was e)
  Step-IsFresh {m} (look_fails r d gen since x w was e) (f, h) =
      moves_to m f h r (missed none d) w (look_reads server team d gen m.store w (err x) e) tt
  Step-IsFresh {m} (read r d stamp p was at) (f, h) =
      moves_to m f h r (holds stamp d p) m.store refl (
        holds_fresh server team made_at f m.store.keys m.changes d stamp p
          (was_fresh m f h r (missed stamp d) was) h.floors_le at)
  Step-IsFresh {m} (store_page r d stamp p was) (f, h) = (
    f,
    assign_fresh server team made_at f _ m.floor m.changes r idle m.readers
        (stored_fresh server team made_at f m.store m.floor m.changes d stamp p m.readers h
          (was_fresh m f h r (holds stamp d p) was))
        tt,
  )
  Step-IsFresh {m} (lapse k) (f, h) =
      (f, drop_fresh server team made_at f m.store.keys m.floor m.changes k m.readers h)

  Reach-IsFresh :
      {m m' : Moment S P}
      → Reach server team made_at m m'
      → IsFresh server team made_at m
      → IsFresh server team made_at m'
  Reach-IsFresh here h = h
  Reach-IsFresh (next r s) h = Step-IsFresh s (Reach-IsFresh r h)

  -- No page of the team is stored, and no call is under way.
  abbrev pub begun : Store S → Moment S P
  begun w = record { store = w; changes = 0; floor = 0; readers = λ r. idle }

  begun-IsFresh :
      (w : Store S)
      → ((g : ℕ) (digest : String) → server.get (key_of server team g digest) w.keys ≡ none)
      → IsFresh server team made_at (begun w)
  begun-IsFresh w empty = (
    λ g. 0,
    record {
      floor_le = omega arith;
      floor_is = refl;
      floors_le = λ g k. omega arith;
      pages = λ g d p e. absurd (gone p (sym (empty g d) ∙ e));
      readers_fresh = λ r. tt;
    },
  )
    where
      gone : (p : P) → ◌≡◌ {A = Option (Option P)} none (some (some p)) → ⊥
      gone p e = ground arith

  floor-Step :
      {m m' : Moment S P}
      → Step server team made_at m m'
      → IsFresh server team made_at m
      → m.floor ≤ m'.floor
  floor-Step {m} change h = omega arith
  floor-Step {m} (invalidate w e) (f, h) = h.floor_le
  floor-Step {m} (invalidation_fails x w e) h = omega arith
  floor-Step {m} (ask r d gen w e) h = omega arith
  floor-Step {m} (ask_fails r d x w e) h = omega arith
  floor-Step {m} (hit r d gen since p stamp w was e) h = omega arith
  floor-Step {m} (miss r d gen since stamp w was e) h = omega arith
  floor-Step {m} (look_fails r d gen since x w was e) h = omega arith
  floor-Step {m} (read r d stamp p was at) h = omega arith
  floor-Step {m} (store_page r d stamp p was) h = omega arith
  floor-Step {m} (lapse k) h = omega arith

  floor-Reach :
      {m m' : Moment S P}
      → Reach server team made_at m m'
      → IsFresh server team made_at m
      → m.floor ≤ m'.floor
  floor-Reach {m} here h = omega arith
  floor-Reach (next r s) h = omega (arith, floor-Reach r h, floor-Step s (Reach-IsFresh r h))

  -- Every page that is found in the generation that a call has asked for is as new as the last
  -- invalidation before it asked.
  found-not_stale :
      (m : Moment S P) (w : Store S) (r gen since : ℕ) (digest : String) (page : P) (stamp : Stamp)
      → IsFresh server team made_at m
      → m.readers r ≡ asked gen digest since
      → look server team digest gen m.store ≡ (ok (some page, stamp), w)
      → since ≤ made_at page
  found-not_stale m w r gen since digest page stamp (f, h) was found = omega (
    arith,
    (was_fresh m f h r (asked gen digest since) was).1,
    (h.pages gen digest page (look_page server team digest gen m.store w page stamp found)).1,
  )

  -- Calls that read the generation, read the page of it, read MySQL and store their page, changes of
  -- the tasks, invalidations that succeed or fail, and pages that lapse interleave command by command,
  -- from a server with no page of the team on. A `Get` that reads its generation after an
  -- `InvalidateTeam` that returned without an error serves no page that was read from MySQL before the
  -- changes that were committed by that `InvalidateTeam`, whatever happens between its two commands.
  -- (A `Get` that had read its generation before may serve an older page.)
  pub get-not_stale :
      (w : Store S) (m m' m'' : Moment S P) (w1 w2 w3 : Store S) (r gen : ℕ) (digest : String)
      (page : P) (stamp : Stamp)
      → ((g : ℕ) (d : String) → server.get (key_of server team g d) w.keys ≡ none)
      → Reach server team made_at (begun w) m
      → invalidate_team server team m.store ≡ (ok tt, w1)
      → Reach server team made_at (record m { store = w1; floor = m.changes }) m'
      → generation server team m'.store ≡ (ok gen, w2)
      → Reach server team made_at
          (record m' { store = w2; readers = assign r (asked gen digest m'.floor) m'.readers })
          m''
      → m''.readers r ≡ asked gen digest m'.floor
      → look server team digest gen m''.store ≡ (ok (some page, stamp), w3)
      → m.changes ≤ made_at page
  get-not_stale w m m' m'' w1 w2 w3 r gen digest page stamp empty before done after asks between
        waits found =
      let cleared : IsFresh server team made_at (record m { store = w1; floor = m.changes }) =
        Step-IsFresh (invalidate w1 done) (Reach-IsFresh before (begun-IsFresh w empty)) in
      let started = Step-IsFresh (ask r digest gen w2 asks) (Reach-IsFresh after cleared) in
      omega (
        arith,
        floor-Reach after cleared,
        found-not_stale m'' w3 r gen m'.floor digest page stamp (Reach-IsFresh between started)
            waits found,
      )
