-- ===== src/Repository/Comment.antt =====
-- internal/repository/task.go: the comments of a task.
use task_management.Base.{
  ℕ, not, str_eq, String, Bool, Option, none, some, List, [], ◌∷◌, ◌&&◌, ◌||◌, ◌==◌, if◌then◌else◌,
  is_some, ltb, leb,
}
use task_management.Domain.Errors.{domain, plain, Result, ok, err, not_found}
use task_management.Domain.Team.{User}
use task_management.Domain.Task.{TaskComment}
use task_management.Database.Tables.{find_user, find_task, find_comment}
use task_management.Database.Tx.{Action, query, exec}

-- A row of `commentSelect`: the comment, its author's name, and whether it was edited.
pub record CommentView : Type 0 where
  pub comment : TaskComment
  pub user_name : String
  pub edited : Bool

-- Does the row's id exist already? The primary key spans all tasks.
abbrev pub comment_exists : ℕ → List TaskComment → Bool
comment_exists id [] = Bool.false
comment_exists id (c ∷ cs) = c.id == id || comment_exists id cs

unfoldable pub add_comment : TaskComment → Action (Unit {0})
add_comment c = exec "taskRepo.AddComment" λ b.
    if comment_exists c.id b.comments
    then err (plain "taskRepo.AddComment")
    else if is_some (find_task c.task_id b.tasks) && is_some (find_user c.user_id b.users)
    then ok (tt, record b { comments = c ∷ b.comments })
    else err (domain not_found "task not found")

-- JOIN users u ON u.id = c.user_id
abbrev pub view : TaskComment → Option User → Option CommentView
view c none = none
view c (some u) =
    some (record { comment = c; user_name = u.name; edited = ltb c.created_at c.updated_at })

abbrev pub view_found : Option TaskComment → List User → Option CommentView
view_found none us = none
view_found (some c) us = view c (find_user c.user_id us)

abbrev pub found_comment : Option CommentView → Result CommentView
found_comment none = err (domain not_found "comment not found")
found_comment (some v) = ok v

unfoldable pub get_comment : ℕ → ℕ → Action CommentView
get_comment task_id id =
    query "taskRepo.GetComment"
      λ b. found_comment (view_found (find_comment task_id id b.comments) b.users)

abbrev pub set_content : ℕ → String → ℕ → List TaskComment → List TaskComment
set_content id content now [] = []
set_content id content now (c ∷ cs) =
    (if c.id == id then record c { content = content; updated_at = now } else c)
    ∷ set_content id content now cs

abbrev pub drop_comment : ℕ → List TaskComment → List TaskComment
drop_comment id [] = []
drop_comment id (c ∷ cs) = let rest = drop_comment id cs in if c.id == id then rest else c ∷ rest

-- MySQL counts the rows that an UPDATE changes.
abbrev pub changes_comment : TaskComment → List TaskComment → Bool
changes_comment c [] = Bool.false
changes_comment c (x ∷ xs) =
    (x.id == c.id && not (str_eq x.content c.content && x.updated_at == c.updated_at))
    || changes_comment c xs

unfoldable pub update_comment : TaskComment → Action (Unit {0})
update_comment c = exec "taskRepo.UpdateComment" λ b.
    if changes_comment c b.comments
    then ok (tt, record b { comments = set_content c.id c.content c.updated_at b.comments })
    else err (domain not_found "comment not found")

unfoldable pub delete_comment : ℕ → Action (Unit {0})
delete_comment id = exec "taskRepo.DeleteComment" λ b.
    if comment_exists id b.comments
    then ok (tt, record b { comments = drop_comment id b.comments })
    else err (domain not_found "comment not found")

-- ORDER BY c.created_at ASC, c.id ASC
abbrev earlier : CommentView → CommentView → Bool
earlier v w =
    ltb v.comment.created_at w.comment.created_at
    || (v.comment.created_at == w.comment.created_at && leb v.comment.id w.comment.id)

abbrev place : CommentView → List CommentView → List CommentView
place v [] = v ∷ []
place v (w ∷ ws) = let rest = place v ws in if earlier v w then v ∷ w ∷ ws else w ∷ rest

abbrev place_view : Option CommentView → List CommentView → List CommentView
place_view none vs = vs
place_view (some v) vs = place v vs

abbrev comments_of : ℕ → List User → List TaskComment → List CommentView
comments_of task_id us [] = []
comments_of task_id us (c ∷ cs) =
    let rest = comments_of task_id us cs in
    if c.task_id == task_id then place_view (view c (find_user c.user_id us)) rest else rest

unfoldable pub list_comments : ℕ → Action (List CommentView)
list_comments task_id =
    query "taskRepo.ListComments" λ b. ok (comments_of task_id b.users b.comments)
