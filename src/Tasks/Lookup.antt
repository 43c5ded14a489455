-- ===== src/Tasks/Lookup.antt =====
-- A task is found under the id that it was stored with.
use smalt_mcp.Prelude.{
  ℕ, ◌≡◌, ◌∙◌, sym, ap, arith, some, List, [], ◌∷◌, Text, text_eq_refl, text_eq→eq,
}
use smalt_mcp.Tasks.{Task, cancel_task, interrupt}
use smalt_mcp.Tasks.Registry.{Scheduler, put_task, find_task, get_task, cancel}

module _ {Value : Type 0} where
  put_task-find :
      (t : Task Value) (tasks : List (Task Value)) → find_task t.id (put_task t tasks) ≡ some t
  unfolding put_task find_task
  put_task-find t [] = rw (text_eq_refl t.id)
  put_task-find t (u ∷ tasks) = ground (arith, text_eq_refl t.id, put_task-find t tasks)

  find_task-id :
      (id : Text) (tasks : List (Task Value)) (t : Task Value)
      → find_task id tasks ≡ some t
      → t.id ≡ id
  unfolding find_task
  find_task-id id [] t h = cc
  find_task-id id (u ∷ tasks) t h = ground (arith, h, text_eq→eq u.id id, find_task-id id tasks t)

  cancel_task-id : (now : ℕ) (t : Task Value) → (cancel_task now t).id ≡ t.id
  unfolding cancel_task interrupt
  cancel_task-id now t = ground arith

  pub cancel-reply :
      (id : Text) (now : ℕ) (s : Scheduler Value) (t : Task Value)
      → get_task id s ≡ some t
      → (cancel id now s).0 ≡ some (cancel_task now t)
  unfolding cancel get_task
  cancel-reply id now s t h = rw h

  pub cancel-get_task :
      (id : Text) (now : ℕ) (s : Scheduler Value) (t : Task Value)
      → get_task id s ≡ some t
      → get_task id (cancel id now s).1 ≡ some (cancel_task now t)
  unfolding cancel get_task
  cancel-get_task id now s t h =
      let same : (cancel_task now t).id ≡ id = cancel_task-id now t ∙ find_task-id id s.tasks t h in
      rw h (
        ap (λ i. find_task i (put_task (cancel_task now t) s.tasks)) (sym same)
        ∙ put_task-find (cancel_task now t) s.tasks)
