-- ===== src/Outbox/Calls.antt =====
-- The statements on the outbox, by any number of processes, in the order in which they take effect. A
-- process that dies, or whose statement fails, sends no more of them.
use postgres_pipeline_orches.Common.{ℕ, Bool, List, [], ◌∷◌}
use postgres_pipeline_orches.Common.Text.{Text}
use postgres_pipeline_orches.Common.Json.{Json}
use postgres_pipeline_orches.Outbox.Operations.{
  Outbox, enqueue_notification, claim_query, mark_webhook_processed, mark_webhook_failed,
}

pub data OutboxCall : Type 0 where
  enqueue :
      (id now : ℕ) (event_type : Text) → Json → (webhook_url : Text) (max_retries : ℕ) → OutboxCall
  claim : (locked : ℕ → Bool) (now : ℕ) → OutboxCall
  mark_processed : (id now : ℕ) → OutboxCall
  mark_failed : (id now : ℕ) → OutboxCall

unfoldable pub call : OutboxCall → Outbox → Outbox
call (enqueue id now event_type payload webhook_url max_retries) box =
    (enqueue_notification id now event_type payload webhook_url max_retries box).0
call (claim locked now) box = (claim_query locked now box).0
call (mark_processed id now) box = mark_webhook_processed id now box
call (mark_failed id now) box = mark_webhook_failed id now box

unfoldable pub calls : List OutboxCall → Outbox → Outbox
calls [] box = box
calls (c ∷ cs) box = calls cs (call c box)
