-- ===== src/Outbox/Process.antt =====
-- `claimNextWebhook` and `processOneWebhook` of `src/queue/webhook-queue.service.ts`.
use postgres_pipeline_orches.Common.{
  ℕ, if◌then◌else◌, not, Bool, true, false, ◌&&◌, Option, none, some, List, leb, ltb,
}
use postgres_pipeline_orches.Common.Text.{Text}
use postgres_pipeline_orches.Common.Json.{Json, obj, end}
use postgres_pipeline_orches.Database.{First, missing, row, rows, Reply, is_fine, if_done}
use postgres_pipeline_orches.Outbox.Operations.{
  WebhookOutbox, Outbox, claim_query, mark_webhook_processed, mark_webhook_failed,
}

-- A field that the raw row lacks is `undefined`, or NaN for the two numbers: `none` here.
pub record WebhookOutboxItem : Type 0 where
  pub id : Option ℕ
  pub event_type : Option Text
  pub payload : Json
  pub webhook_url : Option Text
  pub retry_count : Option ℕ
  pub max_retries : Option ℕ

-- `mapRowToOutboxItem` at a row, and at a list, which has none of the keys.
abbrev pub item_of_row : WebhookOutbox → WebhookOutboxItem
item_of_row w = record {
  id = some w.id;
  event_type = some w.event_type;
  payload = w.payload;
  webhook_url = some w.webhook_url;
  retry_count = some w.retry_count;
  max_retries = some w.max_retries;
}

abbrev pub item_of_list : WebhookOutboxItem
item_of_list = record {
  id = none;
  event_type = none;
  payload = obj end;
  webhook_url = none;
  retry_count = none;
  max_retries = none;
}

unfoldable pub read_item : First WebhookOutbox → Option WebhookOutboxItem
read_item missing = none
read_item (row w) = some (item_of_row w)
read_item (rows ws) = some item_of_list

-- The table after the statement, and what the method returns.
abbrev pub read_claimed :
    (List WebhookOutbox → First WebhookOutbox)
    → Outbox × List WebhookOutbox
    → Outbox × Option WebhookOutboxItem
read_claimed first (box, written) = (box, read_item (first written))

unfoldable pub claim_next_webhook :
    (List WebhookOutbox → First WebhookOutbox)
    → (ℕ → Bool)
    → ℕ
    → Outbox
    → Outbox × Option WebhookOutboxItem
claim_next_webhook first locked now box = read_claimed first (claim_query locked now box)

-- How the call of `fetch` ends: it rejects, or answers with a status.
pub data Fetched : Type 0 where
  rejected : Fetched
  answered : (http_status : ℕ) → Fetched

-- `res.ok`
abbrev pub is_ok : Fetched → Bool
is_ok rejected = false
is_ok (answered s) = leb 200 s && ltb s 300

-- The two reports, at the `id` of an item: `WHERE id = NULL` holds of no row.
abbrev pub report_processed : Option ℕ → ℕ → Outbox → Outbox
report_processed none now box = box
report_processed (some id) now box = mark_webhook_processed id now box

abbrev pub report_failed : Option ℕ → ℕ → Outbox → Outbox
report_failed none now box = box
report_failed (some id) now box = mark_webhook_failed id now box

-- The `try` and its `catch`: `processed` and `put_back` are how the two statements end. Where the first
-- of them throws, also behind its effect, the `catch` marks the webhook as failed; where that throws,
-- the method does, which is `none`.
abbrev put_back_all : Reply → ℕ → Option ℕ → Outbox → Outbox × Option Bool
put_back_all put_back now id box =
    (if_done put_back (report_failed id now box) box, if is_fine put_back then some true else none)

unfoldable pub send :
    Fetched → (processed put_back : Reply) → ℕ → Option ℕ → Outbox → Outbox × Option Bool
send f processed put_back now id box =
    if not (is_ok f)
    then put_back_all put_back now id box
    else if is_fine processed
    then (report_processed id now box, some true)
    else put_back_all put_back now id (if_done processed (report_processed id now box) box)

-- What a call of the method meets behind its claim: what others do to the table in the meantime, the
-- POST, which `fetch` answers, and the reports at `later`.
pub record Delivery : Type 0 where
  pub meanwhile : Outbox → Outbox
  pub fetch : WebhookOutboxItem → Fetched
  pub later : ℕ
  pub processed : Reply
  pub put_back : Reply

-- `if (!item) return false`, and the rest of the method.
abbrev pub after_claim : Delivery → Outbox × Option WebhookOutboxItem → Outbox × Option Bool
after_claim d (box, none) = (box, some false)
after_claim d (box, some item) =
    send (d.fetch item) d.processed d.put_back d.later item.id (d.meanwhile box)

-- Whether there was a webhook; `none` where the method throws.
unfoldable pub process_one_webhook :
    (List WebhookOutbox → First WebhookOutbox)
    → (ℕ → Bool)
    → ℕ
    → Delivery
    → Outbox
    → Outbox × Option Bool
process_one_webhook first locked now d box = after_claim d (claim_next_webhook first locked now box)
