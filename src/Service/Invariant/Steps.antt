-- ===== src/Service/Invariant/Steps.antt =====
-- Each request, whichever way it ends, makes at most one step of the specifications.
use task_management.Base.{ℕ, String, ◌≡◌, refl, ◌⊎◌, inl, inr}
use task_management.Domain.Team.{Role, InviteMemberRequest}
use task_management.Domain.Task.{CreateTaskRequest, UpdateTaskRequest}
use task_management.Database.Tables.{Db}
use task_management.Database.Tx.{Action, pure, ◌>>◌}
use task_management.Database.Runs.{Runs, returns, bind_runs, weaken_runs}
use task_management.Service.Requests.{Request, serve, actor_of}
use task_management.Service.Team.{
  create_team, get_team, rename_team, delete_team, invite_member, leave_team, transfer_ownership,
  change_member_role, remove_member,
}
use task_management.Service.Task.{
  create_task, get_task, delete_task, update_task, add_comment, edit_comment, delete_comment,
}
use task_management.Service.Team.Spec.{TeamStep}
use task_management.Service.Team.Refines.{
  create_team-refines, get_team_runs, rename_team-refines, delete_team-refines,
  invite_member-refines, leave_team-refines, transfer_ownership-refines, change_member_role-refines,
  remove_member-refines,
}
use task_management.Service.Task.Spec.{TaskStep, CommentStep}
use task_management.Service.Task.Remarks.{
  Remarks, get_task_runs, add_comment-Remarks, edit_comment-Remarks, delete_comment-Remarks,
}
use task_management.Service.Task.Refines.{
  create_task-refines, update_task-refines, delete_task-refines,
}

-- One change that the actor is entitled to: to the teams, to the tasks or to the comments.
pub data Step (actor : ℕ) (b b' : Db) : Type 0 where
  on_team : TeamStep actor b b' → Step actor b b'
  on_task : TaskStep actor b b' → Step actor b b'
  on_comment : CommentStep actor b b' → Step actor b b'

-- Nothing, or one step.
abbrev pub Steps : ℕ → Db → Db → Type 0
Steps actor b b' = (b' ≡ b) ⊎ Step actor b b'

module _ {A : Type 0} (P : Db → Type 0) where
  forget : (b : Db) (m : Action A) → Runs b m P (λ _. P) → Runs b (m >> pure tt) P (λ _. P)
  forget b m run = bind_runs {R = λ _. P} b m (λ _. pure tt) run λ a b' h. returns b' tt h

module _ {A : Type 0} (actor : ℕ) (b : Db) (m : Action A) where
  by_team :
      Runs b m (λ b'. b' ≡ b) (λ _ b'. TeamStep actor b b')
      → Runs b m (Steps actor b) (λ _. Steps actor b)
  by_team = weaken_runs b m (λ _ h. inl h) (λ _ _ h. inr (Step.on_team h))

  by_task :
      Runs b m (λ b'. b' ≡ b) (λ _ b'. TaskStep actor b b')
      → Runs b m (Steps actor b) (λ _. Steps actor b)
  by_task = weaken_runs b m (λ _ h. inl h) (λ _ _ h. inr (Step.on_task h))

  by_reading :
      Runs b m (λ b'. b' ≡ b) (λ _ b'. b' ≡ b) → Runs b m (Steps actor b) (λ _. Steps actor b)
  by_reading = weaken_runs b m (λ _ h. inl h) (λ _ _ h. inl h)

team-Steps : (actor : ℕ) (b b' : Db) → (b' ≡ b) ⊎ TeamStep actor b b' → Steps actor b b'
team-Steps actor b b' (inl h) = inl h
team-Steps actor b b' (inr h) = inr (Step.on_team h)

task-Steps : (actor : ℕ) (b b' : Db) → (b' ≡ b) ⊎ TaskStep actor b b' → Steps actor b b'
task-Steps actor b b' (inl h) = inl h
task-Steps actor b b' (inr h) = inr (Step.on_task h)

comment-Steps : (actor : ℕ) (b b' : Db) → Remarks actor b b' → Steps actor b b'
comment-Steps actor b b' (inl h) = inl h
comment-Steps actor b b' (inr h) = inr (Step.on_comment h)

-- The action leaves the tables as they were or makes one step of the actor's.
abbrev pub Stepping : {A : Type 0} → ℕ → Db → Action A → Type 0
Stepping actor b m = Runs b m (Steps actor b) (λ _. Steps actor b)

module _ (b : Db) where
  pub create_team-Steps : (id now a : ℕ) (name : String) → Stepping a b (create_team id now a name)
  create_team-Steps id now a name = by_team a b _ (create_team-refines id now a name b)

  pub get_team-Steps : (a t : ℕ) → Stepping a b (get_team a t)
  get_team-Steps a t = get_team_runs a t b (Steps a b) (inl refl)

  pub rename_team-Steps : (a t : ℕ) (name : String) → Stepping a b (rename_team a t name)
  rename_team-Steps a t name =
      weaken_runs b _ (team-Steps a b) (λ _. team-Steps a b) (rename_team-refines a t name b)

  pub delete_team-Steps : (a t : ℕ) → Stepping a b (delete_team a t)
  delete_team-Steps a t = by_team a b _ (delete_team-refines a t b)

  pub invite_member-Steps :
      (a t : ℕ) (req : InviteMemberRequest) → Stepping a b (invite_member a t req)
  invite_member-Steps a t req = by_team a b _ (invite_member-refines a t req b)

  pub leave_team-Steps : (now a t : ℕ) → Stepping a b (leave_team now a t)
  leave_team-Steps now a t = by_team a b _ (leave_team-refines now a t b)

  pub transfer_ownership-Steps : (a t u : ℕ) → Stepping a b (transfer_ownership a t u)
  transfer_ownership-Steps a t u = by_team a b _ (transfer_ownership-refines a t u b)

  pub change_member_role-Steps :
      (a t u : ℕ) (role : Role) → Stepping a b (change_member_role a t u role)
  change_member_role-Steps a t u role = by_team a b _ (change_member_role-refines a t u role b)

  pub remove_member-Steps : (now a t u : ℕ) → Stepping a b (remove_member now a t u)
  remove_member-Steps now a t u = by_team a b _ (remove_member-refines now a t u b)

  pub create_task-Steps :
      (id clock a : ℕ) (req : CreateTaskRequest) → Stepping a b (create_task id clock a req)
  create_task-Steps id clock a req = by_task a b _ (create_task-refines id clock a req b)

  pub get_task-Steps : (a id : ℕ) → Stepping a b (get_task a id)
  get_task-Steps a id = by_reading a b _ (get_task_runs a id b)

  pub update_task-Steps :
      (closing clock a id : ℕ) (req : UpdateTaskRequest)
      → Stepping a b (update_task closing clock a id req)
  update_task-Steps closing clock a id req =
      weaken_runs b _ (λ _ h. inl h) (λ _. task-Steps a b)
        (update_task-refines closing clock a id req b)

  pub delete_task-Steps : (a id : ℕ) → Stepping a b (delete_task a id)
  delete_task-Steps a id = by_task a b _ (delete_task-refines a id b)

  pub add_comment-Steps :
      (id clock a task : ℕ) (text : String) → Stepping a b (add_comment id clock a task text)
  add_comment-Steps id clock a task text =
      weaken_runs b _ (comment-Steps a b) (λ _. comment-Steps a b)
        (add_comment-Remarks id clock a task text b)

  pub edit_comment-Steps :
      (clock a task c : ℕ) (text : String) → Stepping a b (edit_comment clock a task c text)
  edit_comment-Steps clock a task c text =
      weaken_runs b _ (comment-Steps a b) (λ _. comment-Steps a b)
        (edit_comment-Remarks clock a task c text b)

  pub delete_comment-Steps : (a task c : ℕ) → Stepping a b (delete_comment a task c)
  delete_comment-Steps a task c =
      weaken_runs b _ (comment-Steps a b) (λ _. comment-Steps a b)
        (delete_comment-Remarks a task c b)

-- Every request, under any outages and whether it is answered or fails, leaves the tables as they
-- were or makes one step of TeamStep, TaskStep or CommentStep: each is a change of the tables that the
-- actor's role in the team, or his authorship, entitles him to.
pub serve-refines :
    (r : Request) (b : Db) → Runs b (serve r) (Steps (actor_of r) b) (λ _. Steps (actor_of r) b)
serve-refines (Request.create_team_req id now a name) b =
    forget (Steps a b) b _ (create_team-Steps b id now a name)
serve-refines (Request.get_team_req a t) b = forget (Steps a b) b _ (get_team-Steps b a t)
serve-refines (Request.rename_team_req a t name) b =
    forget (Steps a b) b _ (rename_team-Steps b a t name)
serve-refines (Request.delete_team_req a t) b = delete_team-Steps b a t
serve-refines (Request.invite_member_req a t req) b =
    forget (Steps a b) b _ (invite_member-Steps b a t req)
serve-refines (Request.leave_team_req now a t) b = leave_team-Steps b now a t
serve-refines (Request.transfer_ownership_req a t u) b = transfer_ownership-Steps b a t u
serve-refines (Request.change_member_role_req a t u role) b = change_member_role-Steps b a t u role
serve-refines (Request.remove_member_req now a t u) b = remove_member-Steps b now a t u
serve-refines (Request.create_task_req id clock a req) b =
    forget (Steps a b) b _ (create_task-Steps b id clock a req)
serve-refines (Request.get_task_req a id) b = forget (Steps a b) b _ (get_task-Steps b a id)
serve-refines (Request.update_task_req closing clock a id req) b =
    forget (Steps a b) b _ (update_task-Steps b closing clock a id req)
serve-refines (Request.delete_task_req a id) b = delete_task-Steps b a id
serve-refines (Request.add_comment_req id clock a task text) b =
    forget (Steps a b) b _ (add_comment-Steps b id clock a task text)
serve-refines (Request.edit_comment_req clock a task c text) b =
    forget (Steps a b) b _ (edit_comment-Steps b clock a task c text)
serve-refines (Request.delete_comment_req a task c) b = delete_comment-Steps b a task c
