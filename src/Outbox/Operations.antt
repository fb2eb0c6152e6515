-- ===== src/Outbox/Operations.antt =====
-- The statements on `webhooks_outbox`, `src/queue/webhook-queue.service.ts`. `now` is NOW().
use postgres_pipeline_orches.Common.{
  ℕ, ◌+◌, ◌*◌, ◌^◌, Bool, true, false, not, ◌&&◌, Option, none, some, List, [], ◌∷◌, ◌++◌, map, ltb,
  leb, ◌==◌, if◌then◌else◌, select, update,
}
use postgres_pipeline_orches.Common.Text.{Text}
use postgres_pipeline_orches.Common.Json.{Json}

-- The column `status` holds four strings.
pub data OutboxStatus : Type 0 where
  pending processing processed failed : OutboxStatus

pub record WebhookOutbox : Type 0 where
  pub id : ℕ
  pub event_type : Text
  pub payload : Json
  pub webhook_url : Text
  pub status : OutboxStatus
  pub retry_count : ℕ
  pub max_retries : ℕ
  pub next_retry_at : ℕ
  pub created_at : ℕ
  pub processed_at : Option ℕ

abbrev pub Outbox : Type 0
Outbox = List WebhookOutbox

abbrev pub is_pending : OutboxStatus → Bool
is_pending pending = true
is_pending _ = false

abbrev pub new_notification : ℕ → ℕ → Text → Json → Text → ℕ → WebhookOutbox
new_notification id now event_type payload webhook_url max_retries = record {
  id = id;
  event_type = event_type;
  payload = payload;
  webhook_url = webhook_url;
  status = pending;
  retry_count = 0;
  max_retries = max_retries;
  next_retry_at = now;
  created_at = now;
  processed_at = none;
}

unfoldable pub enqueue_notification :
    ℕ → ℕ → Text → Json → Text → ℕ → Outbox → Outbox × WebhookOutbox
enqueue_notification id now event_type payload webhook_url max_retries box =
    let w = new_notification id now event_type payload webhook_url max_retries in (box ++ w ∷ [], w)

-- `status = 'pending' AND next_retry_at <= NOW()`
abbrev pub due : ℕ → WebhookOutbox → Bool
due now w = is_pending w.status && leb w.next_retry_at now

-- `ORDER BY next_retry_at ASC … LIMIT 1`, of equals the first in the table.
unfoldable pub soonest : Outbox → Option WebhookOutbox
soonest [] = none
soonest (w ∷ ws) = elim (soonest ws) [
  | none ↦ some w
  | some v ↦ if ltb v.next_retry_at w.next_retry_at then some v else some w
]

abbrev pub set_processing : WebhookOutbox → WebhookOutbox
set_processing w = record w { status = processing }

-- The inner query; `locked` tells the rows that other transactions hold.
unfoldable pub next_webhook : (ℕ → Bool) → ℕ → Outbox → Option WebhookOutbox
next_webhook locked now box = soonest (select (λ w. due now w && not (locked w.id)) box)

unfoldable pub claim_query : (ℕ → Bool) → ℕ → Outbox → Outbox × List WebhookOutbox
unfolding next_webhook
claim_query locked now box = elim (next_webhook locked now box) [
  | none ↦ (box, [])
  | some k ↦
      let p = λ (w : WebhookOutbox). w.id == k.id in
      (update p set_processing box, map set_processing (select p box))
]

abbrev pub set_processed : ℕ → WebhookOutbox → WebhookOutbox
set_processed now w = record w { status = processed; processed_at = some now }

unfoldable pub mark_webhook_processed : ℕ → ℕ → Outbox → Outbox
mark_webhook_processed id now box = update (λ w. w.id == id) (set_processed now) box

abbrev pub second : ℕ
second = 1000000

abbrev pub spent : WebhookOutbox → Bool
spent w = leb w.max_retries (w.retry_count + 1)

-- `NOW() + (power(2, retry_count + 1) || ' seconds')::interval`
abbrev pub set_failed : ℕ → WebhookOutbox → WebhookOutbox
set_failed now w = record w {
  status = if spent w then failed else pending;
  retry_count = w.retry_count + 1;
  next_retry_at = if spent w then w.next_retry_at else now + 2 ^ (w.retry_count + 1) * second;
}

unfoldable pub mark_webhook_failed : ℕ → ℕ → Outbox → Outbox
mark_webhook_failed id now box = update (λ w. w.id == id) (set_failed now) box
