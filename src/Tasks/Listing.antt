-- ===== src/Tasks/Listing.antt =====
-- What `list` and `_gc_once` of src/smalt_mcp/scheduler.py show and keep of the registry.
use smalt_mcp.Prelude.{
  ℕ, zero, suc, ◌+◌, ◌≤◌, ◌≡◌, refl, ◌∙◌, arith, Bool, not, ◌&&◌, Option, List, [], ◌∷◌, any,
  any-keep, keep, take, length, length-take, length-parted, All, Text, inl, inr, Bool-cases, min,
  ap,
}
use smalt_mcp.Indexer.Order.{sort_by, insert_sorted, any-sort_by, length-sort_by}
use smalt_mcp.Tasks.{TaskState, Task}
use smalt_mcp.Tasks.Registry.{
  Scheduler, sorted_tasks, list_tasks, later_first, is_listed, gc_once, is_stale,
}

module _ {Value : Type 0} where
  -- No task is created after one that stands before it.
  abbrev pub IsNewestFirst : List (Task Value) → Type 0
  IsNewestFirst [] = Unit
  IsNewestFirst (t ∷ tasks) = All (λ u. u.created_at ≤ t.created_at) tasks × IsNewestFirst tasks

  All-older :
      (m n : ℕ) (tasks : List (Task Value))
      → m ≤ n
      → All (λ u. u.created_at ≤ m) tasks
      → All (λ u. u.created_at ≤ n) tasks
  All-older m n [] h k = tt
  All-older m n (t ∷ tasks) h k = (omega (arith, h, k.0), All-older m n tasks h k.1)

  All-insert :
      (n : ℕ) (t : Task Value) (tasks : List (Task Value))
      → t.created_at ≤ n
      → All (λ u. u.created_at ≤ n) tasks
      → All (λ u. u.created_at ≤ n) (insert_sorted later_first t tasks)
  unfolding insert_sorted
  All-insert n t [] h k = (h, tt)
  All-insert n t (u ∷ tasks) h k = elim (Bool-cases (later_first t u)) [
    | inl e ↦ rw e (h, k)
    | inr e ↦ rw e (k.0, All-insert n t tasks h k.1)
  ]

  insert-IsNewestFirst :
      (t : Task Value) (tasks : List (Task Value))
      → IsNewestFirst tasks
      → IsNewestFirst (insert_sorted later_first t tasks)
  unfolding insert_sorted
  insert-IsNewestFirst t [] h = (tt, tt)
  insert-IsNewestFirst t (u ∷ tasks) h = elim (Bool-cases (later_first t u)) [
    | inl e ↦
        let older : u.created_at ≤ t.created_at = ground (arith, e) in
        rw e ((older, All-older _ _ tasks older h.0), h)
    | inr e ↦
        rw e (
          All-insert u.created_at t tasks (ground (arith, e)) h.0,
          insert-IsNewestFirst t tasks h.1,
        )
  ]

  sort-IsNewestFirst : (tasks : List (Task Value)) → IsNewestFirst (sort_by later_first tasks)
  unfolding sort_by
  sort-IsNewestFirst [] = tt
  sort-IsNewestFirst (t ∷ tasks) = insert-IsNewestFirst t _ (sort-IsNewestFirst tasks)

  All-take :
      (P : Task Value → Type 0) (n : ℕ) (tasks : List (Task Value))
      → All P tasks
      → All P (take n tasks)
  All-take P zero tasks h = tt
  All-take P (suc n) [] h = tt
  All-take P (suc n) (t ∷ tasks) h = (h.0, All-take P n tasks h.1)

  take-IsNewestFirst :
      (n : ℕ) (tasks : List (Task Value)) → IsNewestFirst tasks → IsNewestFirst (take n tasks)
  take-IsNewestFirst zero tasks h = tt
  take-IsNewestFirst (suc n) [] h = tt
  take-IsNewestFirst (suc n) (t ∷ tasks) h =
      (All-take _ n tasks h.0, take-IsNewestFirst n tasks h.1)

  -- `list` returns as many of the tasks with the state and the kind as there are, `limit` at most.
  -- They are the first ones of a list that goes from the newest to the oldest, and that has a task
  -- of any description exactly if a task of the registry with the state and the kind fits it.
  pub list_tasks-IsNewestFirst :
      (state : Option TaskState) (kind : Option Text) (limit : ℕ) (s : Scheduler Value)
      (q : Task Value → Bool)
      → (length (list_tasks state kind limit s)
          ≡ min limit (length (keep (is_listed state kind) s.tasks)))
        × IsNewestFirst (list_tasks state kind limit s)
        × IsNewestFirst (sorted_tasks state kind s)
        × (list_tasks state kind limit s ≡ take limit (sorted_tasks state kind s))
        × (any q (sorted_tasks state kind s) ≡ any (λ t. q t && is_listed state kind t) s.tasks)
  unfolding list_tasks sorted_tasks
  list_tasks-IsNewestFirst state kind limit s q =
      let matching = keep (is_listed state kind) s.tasks in
      let sorted = sort-IsNewestFirst matching in
      (
        length-take limit _ ∙ ap (min limit) (length-sort_by later_first matching),
        take-IsNewestFirst limit _ sorted,
        sorted,
        refl,
        any-sort_by later_first q matching ∙ any-keep (is_listed state kind) q s.tasks,
      )

  -- Garbage collection keeps exactly the tasks that are not terminal or that ended within the TTL,
  -- and returns how many tasks it removed.
  gc_once-keeps :
      (now : ℕ) (s : Scheduler Value) (q : Task Value → Bool)
      → ((gc_once now s).0 + length (gc_once now s).1.tasks ≡ length s.tasks)
        × (any q (gc_once now s).1.tasks
            ≡ any (λ t. q t && not (is_stale now s.gc_ttl_seconds t)) s.tasks)
  unfolding gc_once
  gc_once-keeps now s q = (
    length-parted (is_stale now s.gc_ttl_seconds) s.tasks,
    any-keep (λ t. not (is_stale now s.gc_ttl_seconds t)) q s.tasks,
  )
