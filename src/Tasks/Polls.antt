-- ===== src/Tasks/Polls.antt =====
-- What a client sees who cancels a task and polls it.
use smalt_mcp.Prelude.{◌≡◌, refl, true, false, some, Text}
use smalt_mcp.Corpus.{External}
use smalt_mcp.Corpus.Actions.{done, ◌>>=◌}
use smalt_mcp.Corpus.Pages.{ensure_initialized}
use smalt_mcp.Tools.Links.{absent}
use smalt_mcp.Tasks.{Task, cancel_task}
use smalt_mcp.Tasks.Registry.{get_task}
use smalt_mcp.Tasks.Lookup.{cancel-get_task, cancel-reply}
use smalt_mcp.Tasks.Handlers.{Host, task_status, task_cancel, was_terminal}

module _ (x : External) {Value : Type 0} (h : Host x Value) where
  -- `task_cancel` on a registered task answers with the task as `cancel` leaves it, and `task_status`
  -- then shows the same task. The corpus must be there and its database open.
  task_cancel-task_status :
      (id : Text) (t : Task Value)
      → h.world.smalt_exists ≡ true
      → h.world.db_opens ≡ true
      → absent (some id) ≡ false
      → get_task id h.scheduler ≡ some t
      → ((task_cancel x (some id) h).0
          ≡ done (record {
            task = cancel_task h.now t;
            was_terminal_at_call = was_terminal (cancel_task h.now t);
          }))
        × ((task_status x (some id) (task_cancel x (some id) h).1).0 ≡ done (cancel_task h.now t))
  unfolding task_cancel task_status ◌>>=◌ ensure_initialized
  task_cancel-task_status id t exists opens named found =
      let reply = cancel-reply id h.now h.scheduler t found in
      let stored = cancel-get_task id h.now h.scheduler t found in
      rw (exists, opens, named, reply, stored) (refl, refl)
