-- ===== src/Service/Task/Remarks.antt =====
-- The calls on comments, and those that only read a task: what they leave of the tables.
use mathlib.Core.Path.{subst, sym}
use task_management.Base.{
  ℕ, String, false, Option, none, some, List, [], ◌∷◌, ◌≡◌, refl, Bool-cases, ◌⊎◌, inl, inr, str_eq,
  is_some, ◌&&◌, ◌==◌, arith,
}
use task_management.Domain.Errors.{ok}
use task_management.Domain.Team.{Role, User}
use task_management.Domain.Task.{Task, TaskComment}
use task_management.Database.Tables.{Db, find_task, role_of, find_user, find_comment}
use task_management.Database.Runs.{
  Runs, returns, query_runs, exec_runs, lift_runs, recast_runs, chain,
}
use task_management.Repository.Comment
use task_management.Repository.Comment.{
  CommentView, comment_exists, changes_comment, set_content, drop_comment, found_comment,
  view_found,
}
use task_management.Repository.Team.Rules.{get_member_role_runs}
use task_management.Repository.Task.Rules.{get_by_id_runs}
use task_management.Service.Rbac.{can_edit_comment, can_delete_comment}
use task_management.Service.Team.Spec.{Manages}
use task_management.Service.Task.Spec.{CommentStep, adds, edits, removes}
use task_management.Service.Task.{
  task_not_found, rewrite_comment, visible_task, get_task, add_comment, edit_comment,
  delete_comment, require_author, require_moderator,
}

-- A comment that the query finds is the row with the two keys.
found_comment-row :
    (o : Option TaskComment) (us : List User) {v : CommentView}
    → found_comment (view_found o us) ≡ ok v
    → o ≡ some v.comment
found_comment-row none us h = cc
found_comment-row (some c) us h = of_user (find_user c.user_id us) h
  where
    of_user :
        (u : Option User) {v : CommentView}
        → found_comment (Comment.view c u) ≡ ok v
        → ◌≡◌ {A = Option TaskComment} (some c) (some v.comment)
    of_user none e = cc
    of_user (some u) e = cc

pub find_comment-keys :
    (task id : ℕ) (cs : List TaskComment) {c : TaskComment}
    → find_comment task id cs ≡ some c
    → (c.task_id ≡ task) × (c.id ≡ id)
find_comment-keys task id [] h = cc
find_comment-keys task id (x ∷ xs) {c} h = elim (Bool-cases (x.id == id && x.task_id == task)) [
  | inl e ↦ ground arith
  | inr e ↦ find_comment-keys task id xs (rw e at h)
]

find_comment_self :
    (task id : ℕ) (cs : List TaskComment) {c : TaskComment}
    → find_comment task id cs ≡ some c
    → find_comment c.task_id c.id cs ≡ some c
find_comment_self task id cs {c} h =
    let keys = find_comment-keys task id cs h in
    subst (λ i. find_comment i c.id cs ≡ some c) (sym keys.0)
      (subst (λ i. find_comment task i cs ≡ some c) (sym keys.1) h)

module _ (b : Db) {E : Db → Type 0} where
  pub visible_task_runs :
      {Q : Task × Role → Db → Type 0} (id actor : ℕ)
      → E b
      → ((t : Task) (r : Role)
          → find_task id b.tasks ≡ some t
          → role_of t.team_id actor b.members ≡ some r
          → Q (t, r) b)
      → Runs b (visible_task id actor) E Q
  unfolding visible_task
  visible_task_runs id actor h rest = chain (
      get_by_id_runs b id h λ t is. chain (
        recast_runs b task_not_found _ (
          get_member_role_runs b t.team_id actor h
            λ r role_is. returns b (t, r) (rest t r is role_is))))

  get_comment_runs :
      {Q : CommentView → Db → Type 0} (task id : ℕ)
      → E b
      → ((v : CommentView) → find_comment task id b.comments ≡ some v.comment → Q v b)
      → Runs b (Comment.get_comment task id) E Q
  unfolding Comment.get_comment
  get_comment_runs task id h rest =
      query_runs b _ _ h
        λ v is. rest v (found_comment-row (find_comment task id b.comments) b.users is)

  add_row_runs :
      {Q : Unit {0} → Db → Type 0} (c : TaskComment)
      → E b
      → (comment_exists c.id b.comments ≡ false → Q tt (record b { comments = c ∷ b.comments }))
      → Runs b (Comment.add_comment c) E Q
  unfolding Comment.add_comment
  add_row_runs c h rest = exec_runs b _ _ h (elim (Bool-cases (comment_exists c.id b.comments)) [
    | inl e ↦ rw e tt
    | inr e ↦
        elim (Bool-cases
          (is_some (find_task c.task_id b.tasks) && is_some (find_user c.user_id b.users))) [
            | inl f ↦ rw (e, f) (rest e)
            | inr f ↦ rw (e, f) tt
          ]
  ])

  update_row_runs :
      {Q : Unit {0} → Db → Type 0} (c : TaskComment)
      → E b
      → Q tt (record b { comments = set_content c.id c.content c.updated_at b.comments })
      → Runs b (Comment.update_comment c) E Q
  unfolding Comment.update_comment
  update_row_runs c h rest =
      exec_runs b _ _ h
        (elim (Bool-cases (changes_comment c b.comments)) [ inl e ↦ rw e rest | inr e ↦ rw e tt ])

  delete_row_runs :
      {Q : Unit {0} → Db → Type 0} (id : ℕ)
      → E b
      → Q tt (record b { comments = drop_comment id b.comments })
      → Runs b (Comment.delete_comment id) E Q
  unfolding Comment.delete_comment
  delete_row_runs id h rest =
      exec_runs b _ _ h
        (elim (Bool-cases (comment_exists id b.comments)) [ inl e ↦ rw e rest | inr e ↦ rw e tt ])

pub get_task_runs :
    (actor id : ℕ) (b : Db) → Runs b (get_task actor id) (λ b'. b' ≡ b) (λ _ b'. b' ≡ b)
unfolding get_task
get_task_runs actor id b =
    chain (visible_task_runs b id actor refl λ t r is role_is. returns b t refl)

-- The tables are as they were, or one comment has changed.
abbrev pub Remarks : ℕ → Db → Db → Type 0
Remarks actor b b' = (b' ≡ b) ⊎ CommentStep actor b b'

-- The reading that follows a write changes nothing, whether it fails or not.
reading :
    {b : Db} (P : Db → Type 0) (task id : ℕ) → P b → Runs b (Comment.get_comment task id) P (λ _. P)
reading {b} P task id h = get_comment_runs b task id h λ v _. h

-- A call of AddComment leaves the tables as they were or adds one comment of the caller's.
pub add_comment-Remarks :
    (id clock actor task : ℕ) (text : String) (b : Db)
    → Runs b (add_comment id clock actor task text) (Remarks actor b) (λ _. Remarks actor b)
unfolding add_comment
add_comment-Remarks id clock actor task text b = chain (
    visible_task_runs b task actor (inl refl) λ t r is role_is. chain (
      add_row_runs b _ (inl refl)
        λ free. reading (Remarks actor b) task id (inr (adds _ t r is role_is refl free))))

require_author-own :
    (actor : ℕ) (c : TaskComment)
    → require_author (can_edit_comment actor c) ≡ ok tt
    → c.user_id ≡ actor
unfolding can_edit_comment
require_author-own actor c h = ground arith

require_moderator-entitled :
    (r : Role) (actor : ℕ) (c : TaskComment)
    → require_moderator (can_delete_comment r actor c) ≡ ok tt
    → (c.user_id ≡ actor) ⊎ Manages r
unfolding can_delete_comment
require_moderator-entitled r actor c h = ground arith

module _ (b : Db) (actor task id : ℕ) (t : Task) (r : Role) (c : TaskComment) where
  edits_row :
      (content : String) (now : ℕ)
      → find_comment task id b.comments ≡ some c
      → find_task task b.tasks ≡ some t
      → role_of t.team_id actor b.members ≡ some r
      → c.user_id ≡ actor
      → CommentStep actor b (record b { comments = set_content c.id content now b.comments })
  edits_row content now found is role_is own =
      let keys = find_comment-keys task id b.comments found in
      edits c t r content now (find_comment_self task id b.comments found)
        (subst (λ i. find_task i b.tasks ≡ some t) (sym keys.0) is) role_is own

  removes_row :
      find_comment task id b.comments ≡ some c
      → find_task task b.tasks ≡ some t
      → role_of t.team_id actor b.members ≡ some r
      → (c.user_id ≡ actor) ⊎ Manages r
      → CommentStep actor b (record b { comments = drop_comment id b.comments })
  removes_row found is role_is entitled =
      let keys = find_comment-keys task id b.comments found in
      subst (λ i. CommentStep actor b (record b { comments = drop_comment i b.comments })) keys.1
        (removes c t r (find_comment_self task id b.comments found)
          (subst (λ i. find_task i b.tasks ≡ some t) (sym keys.0) is) role_is entitled)

rewrite_comment_runs :
    (clock actor task id : ℕ) (text : String) (v : CommentView) (b : Db)
    → ((content : String) (now : ℕ)
        → CommentStep actor b
            (record b { comments = set_content v.comment.id content now b.comments }))
    → Runs b (rewrite_comment clock task id text v) (Remarks actor b) (λ _. Remarks actor b)
rewrite_comment_runs clock actor task id text v b step =
    elim (Bool-cases (str_eq text v.comment.content)) [
      | inl e ↦ rw e (returns b v (inl refl))
      | inr e ↦ rw e (
          chain
            (update_row_runs b _ (inl refl) (reading (Remarks actor b) task id (inr (step _ _)))))
    ]

-- A call of EditComment leaves the tables as they were or rewrites one comment of the caller's.
pub edit_comment-Remarks :
    (clock actor task comment : ℕ) (text : String) (b : Db)
    → Runs b (edit_comment clock actor task comment text) (Remarks actor b) (λ _. Remarks actor b)
unfolding edit_comment
edit_comment-Remarks clock actor task comment text b = chain (
    visible_task_runs b task actor (inl refl) λ t r is role_is. chain (
      get_comment_runs b task comment (inl refl) λ v found. chain (
        lift_runs b _ (inl refl) λ _ guard.
          rewrite_comment_runs clock actor task comment _ v b λ content now.
            edits_row b actor task comment t r v.comment content now found is role_is
              (require_author-own actor v.comment guard))))

-- A call of DeleteComment leaves the tables as they were or removes one comment, of the caller's or,
-- where he manages the team, of anyone's.
pub delete_comment-Remarks :
    (actor task comment : ℕ) (b : Db)
    → Runs b (delete_comment actor task comment) (Remarks actor b) (λ _. Remarks actor b)
unfolding delete_comment
delete_comment-Remarks actor task comment b = chain (
    visible_task_runs b task actor (inl refl) λ t r is role_is. chain (
      get_comment_runs b task comment (inl refl) λ v found. chain (
        lift_runs b _ (inl refl) λ _ guard. delete_row_runs b comment (inl refl) (
          inr (
            removes_row b actor task comment t r v.comment found is role_is
              (require_moderator-entitled r actor v.comment guard))))))
