-- ===== src/Service/Task/Paging.antt =====
-- A client that follows `next_cursor` from page to page.
use mathlib.Core.Path.{subst}
use task_management.Base.{
  ℕ, zero, suc, ◌+◌, ◌<◌, String, Bool, true, false, Option, none, some, List, [], ◌∷◌, ◌++◌, ◌≡◌,
  ◌≢◌, refl, sym, ap, ◌∙◌, arith, ltb, if◌then◌else◌, length, take, keep, All, Bool-cases, inl, inr,
}
use task_management.Domain.Errors.{Result, ok, err}
use task_management.Domain.Task.{Task}
use task_management.Domain.Listing.{
  pos, TaskListQuery, TaskListResponse, TaskCursor, Codec, Sort, Order, sort_eq, order_eq,
  sort_or_default, supports_cursor, cursor_after, check_cursor, decode_task_cursor, end_of_time,
}
use task_management.Repository.Task.Listing.{
  matches, order_by, sorted, past_cursor, past, rows, skipped,
}
use task_management.Repository.Task.Ordering.{
  IsTotal, comes_first-IsTotal, HasKeys, IsSorted, sorted-IsSorted, keep-sorted, keep-keep,
  keep-HasKeys, keep_rest, keep_everything, All-sorted, All-keep,
}
use task_management.Service.Task.Listing.{fetching, last, respond, read_cursor, page}

-- A row with an id, whose times are past the zero time and before the year 10000.
abbrev pub IsDated : Task → Type 0
IsDated t =
    (t.id ≢ 0)
    × (t.created_at ≢ 0)
    × (t.updated_at ≢ 0)
    × (t.created_at < end_of_time)
    × (t.updated_at < end_of_time)

module _ (codec : Codec) where
  -- The cursor of a page's last row is read back where the sort supports cursors.
  pub decode_task_cursor-encode :
      (t : Task) (s : Sort) (o : Order)
      → IsDated t
      → decode_task_cursor codec (codec.encode (cursor_after t s o)) s o ≡ ok (cursor_after t s o)
  unfolding decode_task_cursor cursor_after
  decode_task_cursor-encode t s o dated =
      ap (check_cursor s o) (codec.decode-encode (cursor_after t s o) (in_time s)) ∙ checked
    where
      in_time :
          (s : Sort)
          → (if sort_eq (sort_or_default s) Sort.updated_at then t.updated_at else t.created_at)
            < end_of_time
      in_time s = ground (arith, dated.3, dated.4)

      checked : check_cursor s o (some (cursor_after t s o)) ≡ ok (cursor_after t s o)
      checked = ground (arith, dated.0, dated.1, dated.2)

-- The keyset predicate of a row's cursor is the order behind that row.
past_cursor-after :
    (q : TaskListQuery) (t u : Task)
    → supports_cursor q.sort ≡ true
    → past_cursor (cursor_after t q.sort q.order) u ≡ order_by q t u
unfolding past_cursor cursor_after order_by
past_cursor-after q t u h = ground arith

-- A list that is longer than the page: the page, its last row, and the rest.
record Cut (n : ℕ) (ts : List Task) : Type 0 where
  init : List Task
  final : Task
  rest : List Task
  whole : ts ≡ init ++ final ∷ rest
  front : take (suc n) (take (suc (suc n)) ts) ≡ init ++ final ∷ []

cut : (n : ℕ) (ts : List Task) → ltb (suc n) (length (take (suc (suc n)) ts)) ≡ true → Cut n ts
cut n [] h = absurd (ground arith)
cut zero (t ∷ ts) h = record { init = []; final = t; rest = ts; whole = refl; front = refl }
cut (suc n) (t ∷ ts) h =
    let c : Cut n ts = cut n ts (ground arith) in
    record {
      init = t ∷ c.init;
      final = c.final;
      rest = c.rest;
      whole = ap (λ us. t ∷ us) c.whole;
      front = ap (λ us. t ∷ us) c.front;
    }

take_short :
    (n : ℕ) (ts : List Task) → ltb n (length (take (suc n) ts)) ≡ false → take (suc n) ts ≡ ts
take_short n [] h = refl
take_short zero (t ∷ ts) h = ground arith
take_short (suc n) (t ∷ ts) h = ground (arith, take_short n ts)

last-append : (ts : List Task) (t : Task) → last (ts ++ t ∷ []) ≡ some t
last-append [] t = refl
last-append (u ∷ []) t = refl
last-append (u ∷ v ∷ vs) t = last-append (v ∷ vs) t

append_assoc : (ts us vs : List Task) → (ts ++ us) ++ vs ≡ ts ++ (us ++ vs)
append_assoc [] us vs = refl
append_assoc (t ∷ ts) us vs = ap (λ ws. t ∷ ws) (append_assoc ts us vs)

append-nil : (ts : List Task) → ts ++ [] ≡ ts
append-nil [] = refl
append-nil (t ∷ ts) = ap (λ us. t ∷ us) (append-nil ts)

All-back : (P : Task → Type 0) (ts us : List Task) → All P (ts ++ us) → All P us
All-back P [] us h = h
All-back P (t ∷ ts) us h = All-back P ts us h.1

length-append : (ts us : List Task) → length (ts ++ us) ≡ length ts + length us
length-append [] us = ground arith
length-append (t ∷ ts) us = ground (arith, length-append ts us)

module _ (codec : Codec) (like : String → String → Bool) (now : ℕ) where
  abbrev pub with_cursor : String → TaskListQuery → TaskListQuery
  with_cursor c q = record q { cursor = c }

  abbrev pub pages_from : (TaskListQuery → List Task) → TaskListQuery → TaskListResponse → List Task
  pages_from next q p = p.tasks ++ (if p.has_more then next (with_cursor p.next_cursor q) else [])

  abbrev pub read_pages :
      (TaskListQuery → List Task)
      → TaskListQuery
      → List Task
      → Result (Option TaskCursor)
      → List Task
  read_pages next q ts (ok after) = pages_from next q (page codec like now q after ts)
  read_pages next q ts (err e) = []

  -- The rows that a client sees that asks for page after page, at most `fuel` of them.
  abbrev pub follow : ℕ → TaskListQuery → List Task → List Task
  follow zero q ts = []
  follow (suc fuel) q ts = read_pages (λ q'. follow fuel q' ts) q ts (read_cursor codec q)

  -- The rows that match, in the order of the query.
  abbrev pub listing : TaskListQuery → List Task → List Task
  listing q ts = sorted (order_by q) (keep (matches like now q) ts)

  module _ (q : TaskListQuery) (n : ℕ) (ts : List Task) (keys : HasKeys ts)
      (size : q.limit ≡ pos (suc n)) (start : q.offset ≡ pos 0)
      (keyset : supports_cursor q.sort ≡ true) where
    order : IsTotal (order_by q)
    unfolding order_by
    order = comes_first-IsTotal q.sort (order_eq q.order Order.asc)

    rows-cut :
        (c : String) (after : Option TaskCursor)
        → rows like now (fetching (with_cursor c q)) after ts
          ≡ take (suc (suc n)) (keep (past after) (listing q ts))
    unfolding rows order_by matches
    rows-cut c after =
        rw (size, skip after)
          (ap (λ us. take (suc (suc n)) us)
            (ap (sorted (order_by q)) (sym (keep-keep (matches like now q) (past after) ts))
              ∙ sym (
                  keep-sorted (order_by q) order (past after) (keep (matches like now q) ts)
                    (keep-HasKeys (matches like now q) ts keys))))
      where
        skip : (after : Option TaskCursor) → skipped q after ≡ 0
        skip none = rw start refl
        skip (some c) = refl

    shows_last :
        (next : TaskListQuery → List Task) (c : String) (total : ℕ) (post : List Task)
        → ltb (suc n) (length (take (suc (suc n)) post)) ≡ false
        → pages_from next
            (with_cursor c q)
            (respond codec (with_cursor c q) (take (suc (suc n)) post) total)
          ≡ post
    unfolding respond
    shows_last next c total post e =
        rw (size, e) (append-nil (take (suc (suc n)) post) ∙ take_short (suc n) post e)

    shows_more :
        (next : TaskListQuery → List Task) (c : String) (total : ℕ) (post : List Task)
        (k : Cut n post)
        → ltb (suc n) (length (take (suc (suc n)) post)) ≡ true
        → next (with_cursor (codec.encode (cursor_after k.final q.sort q.order)) q) ≡ k.rest
        → pages_from next
            (with_cursor c q)
            (respond codec (with_cursor c q) (take (suc (suc n)) post) total)
          ≡ post
    unfolding respond
    shows_more next c total post k e h =
        rw (size, e, keyset, k.front, last-append k.init k.final, rw size at h)
          (append_assoc k.init (k.final ∷ []) k.rest ∙ sym k.whole)

    read_next :
        (t : Task)
        → IsDated t
        → read_cursor codec (with_cursor (codec.encode (cursor_after t q.sort q.order)) q)
          ≡ ok (some (cursor_after t q.sort q.order))
    unfolding read_cursor
    read_next t dated =
        rw
          (
            codec.encode_not_empty (cursor_after t q.sort q.order),
            keyset,
            decode_task_cursor-encode codec t q.sort q.order dated,
          )
          refl

    keep_next :
        (t : Task) (pre rest : List Task)
        → listing q ts ≡ pre ++ t ∷ rest
        → keep (past (some (cursor_after t q.sort q.order))) (listing q ts) ≡ rest
    keep_next t pre rest e =
        ap (λ p. keep p (listing q ts)) (λ i u. past_cursor-after q t u keyset i)
        ∙ ap (keep (order_by q t)) e
        ∙ keep_rest (order_by q) order t pre rest (
            subst (IsSorted (order_by q)) e (
              sorted-IsSorted (order_by q) order (keep (matches like now q) ts)
                (keep-HasKeys (matches like now q) ts keys)))

    follow_lem :
        (fuel : ℕ) (c : String) (after : Option TaskCursor) (pre post : List Task)
        → read_cursor codec (with_cursor c q) ≡ ok after
        → listing q ts ≡ pre ++ post
        → keep (past after) (listing q ts) ≡ post
        → All IsDated post
        → length post < fuel
        → follow fuel (with_cursor c q) ts ≡ post
    unfolding page
    follow_lem zero c after pre post is whole behind dated less = absurd (omega (arith, less))
    follow_lem (suc fuel) c after pre post is whole behind dated less =
        rw (is, rows-cut c after, behind)
          (elim (Bool-cases (ltb (suc n) (length (take (suc (suc n)) post)))) [
            | inr e ↦ shows_last (λ q'. follow fuel q' ts) c _ post e
            | inl e ↦
                let k : Cut n post = cut n post e in
                let parts : All IsDated (k.init ++ k.final ∷ k.rest) =
                  subst (All IsDated) k.whole dated in
                shows_more (λ q'. follow fuel q' ts) c _ post k e
                  (follow_lem fuel (codec.encode (cursor_after k.final q.sort q.order))
                    (some (cursor_after k.final q.sort q.order)) (pre ++ (k.init ++ k.final ∷ []))
                    k.rest (read_next k.final (All-back IsDated k.init (k.final ∷ k.rest) parts).0)
                    (whole
                      ∙ ap (λ us. pre ++ us)
                          (k.whole ∙ sym (append_assoc k.init (k.final ∷ []) k.rest))
                      ∙ sym (append_assoc pre (k.init ++ k.final ∷ []) k.rest))
                    (keep_next k.final (pre ++ k.init) k.rest (
                      whole
                      ∙ ap (λ us. pre ++ us) k.whole
                      ∙ sym (append_assoc pre k.init (k.final ∷ k.rest))))
                    (All-back IsDated k.init (k.final ∷ k.rest) parts).1
                    (omega
                      (arith, less, ap length k.whole, length-append k.init (k.final ∷ k.rest))))
          ])

  -- A client that starts without a cursor, with a positive limit and a sort that has cursors, and goes
  -- on with `next_cursor` while there is more, sees every matching row exactly once and in the order of
  -- the query, if the table does not change meanwhile. One more request than rows is enough. The ids
  -- are keys, and the rows' times are past the zero time and before the year 10000.
  pub follow-listing :
      (q : TaskListQuery) (n : ℕ) (ts : List Task)
      → HasKeys ts
      → All IsDated ts
      → q.limit ≡ pos (suc n)
      → q.offset ≡ pos 0
      → supports_cursor q.sort ≡ true
      → follow (suc (length (listing q ts))) (with_cursor "" q) ts ≡ listing q ts
  unfolding read_cursor
  follow-listing q n ts keys dated size start keyset =
      follow_lem q n ts keys size start keyset (suc (length (listing q ts))) "" none []
        (listing q ts) refl refl (keep_everything (listing q ts))
        (All-sorted IsDated (order_by q) _ (All-keep IsDated (matches like now q) ts dated))
        (omega arith)
