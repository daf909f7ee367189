-- ===== src/Service/Task/Pages.antt =====
-- What ListTasks returns, and to whom.
use task_management.Base.{
  ℕ, zero, suc, ◌≤◌, String, Bool, true, Option, none, some, List, [], ◌∷◌, ◌≡◌, refl, ap, inl, inr,
  arith, ◌==◌, ltb, length, take, keep, is_some, Bool-cases,
}
use task_management.Domain.Errors.{ok}
use task_management.Domain.Task.{Task, is_overdue}
use task_management.Domain.Listing.{
  pos, natural, TaskListQuery, TaskListResponse, TaskCursor, Codec,
}
use task_management.Database.Tables.{Db, role_of, find_task}
use task_management.Database.Runs.{Runs, returns, lift_runs, query_runs, chain, weaken_runs}
use task_management.Repository.Task.Listing.{list, count, rows, wanted_overdue, matches}
use task_management.Repository.Task.Ordering.{HasKeys, Absent}
use task_management.Service.Team.Refines.{member_role_runs}
use task_management.Service.Invariant.Rows.{KeyedTasks}
use task_management.Service.Task.Listing.{
  normalize_page, fetching, respond, read_cursor, use_cached, read_page, list_tasks, page,
}

-- The limit is from 1 to 100 and the offset no less than 0, whatever was asked for.
pub normalize_page-bounds :
    (q : TaskListQuery)
    → (1 ≤ natural (normalize_page q).limit)
      × (natural (normalize_page q).limit ≤ 100)
      × ((normalize_page q).limit ≡ pos (natural (normalize_page q).limit))
      × ((normalize_page q).offset ≡ pos (natural (normalize_page q).offset))
unfolding normalize_page
normalize_page-bounds q = (ground arith, ground arith, ground arith, ground arith)

-- The overdue filter selects the rows of which IsOverdue holds at the time of the query.
pub wanted_overdue-is_overdue : (now : ℕ) (t : Task) → wanted_overdue true now t ≡ is_overdue t now
wanted_overdue-is_overdue now t = ground arith

length-take : (n : ℕ) (ts : List Task) → length (take n ts) ≤ n
length-take zero ts = ground arith
length-take (suc n) [] = ground arith
length-take (suc n) (t ∷ ts) = ground (arith, length-take n ts)

-- A page holds at most the limit's rows.
pub respond-bounds :
    (codec : Codec) (q : TaskListQuery) (fetched : List Task) (total : ℕ)
    → length (respond codec q fetched total).tasks ≤ natural q.limit
unfolding respond
respond-bounds codec q fetched total = elim (Bool-cases (ltb (natural q.limit) (length fetched))) [
  | inl e ↦ rw e (length-take (natural q.limit) fetched)
  | inr e ↦ rw e (ground arith)
]

natural-bound : (q : TaskListQuery) → natural (normalize_page q).limit ≤ 100
natural-bound q = (normalize_page-bounds q).1

module _ (codec : Codec) (like : String → String → Bool) (now : ℕ) where
  -- Whatever limit is asked for, a page that is read from the tables has no more rows than the limit
  -- that it names, which is at most 100.
  pub page-bounds :
      (q : TaskListQuery) (after : Option TaskCursor) (ts : List Task)
      → (length (page codec like now (normalize_page q) after ts).tasks
          ≤ (page codec like now (normalize_page q) after ts).limit)
        × ((page codec like now (normalize_page q) after ts).limit ≤ 100)
  unfolding page respond
  page-bounds q after ts = (
    respond-bounds codec (normalize_page q) (rows like now (fetching (normalize_page q)) after ts)
        (length (keep (matches like now (normalize_page q)) ts)),
    natural-bound q,
  )

  -- What a call may return: what the cache had, or the page that is read from the tables.
  abbrev pub Answer : Option TaskListResponse → TaskListQuery → Db → TaskListResponse → Type 0
  Answer (some cached) q b p = p ≡ cached
  Answer none q b p =
      (after : Option TaskCursor) × (read_cursor codec q ≡ ok after)
      × (p ≡ page codec like now q after b.tasks)

  read_page_runs :
      (q : TaskListQuery) (after : Option TaskCursor) (b : Db)
      → Runs b
          (read_page codec like now q after)
          (λ b'. b' ≡ b)
          (λ p b'. (p ≡ page codec like now q after b.tasks) × (b' ≡ b))
  unfolding page list count
  read_page_runs q after b = chain (
      query_runs b _ _ refl
        λ ts is. chain (query_runs b _ _ refl λ n total. returns b _ (cc, refl)))

  -- ListTasks changes no table, and returns only to a member of the team that the query names,
  -- whatever the cache holds: the cached page if there is one, and else the page that is read from the
  -- tables behind a cursor that is valid.
  pub list_tasks-Answer :
      (cached : Option TaskListResponse) (user : ℕ) (q : TaskListQuery) (b : Db)
      → Runs b
          (list_tasks codec like now cached user q)
          (λ b'. b' ≡ b)
          (λ p b'.
            (is_some (role_of q.team_id user b.members) ≡ true)
            × Answer cached (normalize_page q) b p
            × (b' ≡ b))
  unfolding list_tasks
  list_tasks-Answer cached user q b = chain (
      member_role_runs b q.team_id user refl
        λ r is. chain (lift_runs b _ refl λ after read. answer cached after (ap is_some is) read))
    where
      answer :
          (cached : Option TaskListResponse) (after : Option TaskCursor)
          → is_some (role_of q.team_id user b.members) ≡ true
          → read_cursor codec (normalize_page q) ≡ ok after
          → Runs b
              (use_cached codec like now cached (read_page codec like now (normalize_page q) after))
              (λ b'. b' ≡ b)
              (λ p b'.
                (is_some (role_of q.team_id user b.members) ≡ true)
                × Answer cached (normalize_page q) b p
                × (b' ≡ b))
      answer (some p) after inside read = returns b p (inside, refl, refl)
      answer none after inside read =
          weaken_runs b _ (λ _ h. h) (λ p b' h. (inside, (after, read, h.0), h.1))
            (read_page_runs (normalize_page q) after b)

-- The primary key, in the two forms that are used.
Absent-of_none : (id : ℕ) (ts : List Task) → find_task id ts ≡ none → Absent id ts
Absent-of_none id [] h = tt
Absent-of_none id (t ∷ ts) h = elim (Bool-cases (t.id == id)) [
  | inl e ↦ absurd (ground arith)
  | inr e ↦ (ground arith, Absent-of_none id ts (rw e at h))
]

pub KeyedTasks-HasKeys : (ts : List Task) → KeyedTasks ts → HasKeys ts
KeyedTasks-HasKeys [] k = tt
KeyedTasks-HasKeys (t ∷ ts) k = (Absent-of_none t.id ts k.0, KeyedTasks-HasKeys ts k.1)
