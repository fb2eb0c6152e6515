-- ===== src/Tests/Outgoing.antt =====
-- The outbox on two notifications.
use postgres_pipeline_orches.Common.{
  ◌+◌, ◌≡◌, ◌≤◌, refl, inl, some, true, List, [], ◌∷◌, arith, Has,
}
use postgres_pipeline_orches.Common.Text.{codes}
use postgres_pipeline_orches.Common.Json.{obj, end}
use postgres_pipeline_orches.Database.{by_count, fine}
use postgres_pipeline_orches.Outbox.{
  WebhookOutbox, WebhookOutboxItem, Outbox, OutboxCall, claim, mark_processed, mark_failed, call,
  calls, Delivery, Fetched, answered, pending, new_notification, claim_query, process_one_webhook,
  set_processing,
}
use postgres_pipeline_orches.Outbox.Claiming.{UniqueIds}
use postgres_pipeline_orches.Outbox.Driver.{process_one_webhook_by_count}
use postgres_pipeline_orches.Outbox.Limits.{claims_of, claims_bounded, backoff_respected}
use postgres_pipeline_orches.Tests.Samples.{nothing_locked}

abbrev note_1 : WebhookOutbox
note_1 = new_notification 1 100 (codes "run.completed") (obj end) (codes "https://example.com/a") 2

abbrev note_2 : WebhookOutbox
note_2 = new_notification 2 200 (codes "run.failed") (obj end) (codes "https://example.com/b") 2

abbrev outbox : Outbox
outbox = note_1 ∷ note_2 ∷ []

abbrev down : WebhookOutboxItem → Fetched
down item = answered 503

outbox-UniqueIds : UniqueIds outbox
outbox-UniqueIds = ground arith

abbrev delivery : Delivery
delivery = record {
  meanwhile = λ box. box;
  fetch = down;
  later = 350;
  processed = fine;
  put_back = fine;
}

process_one_webhook_by_count_example :
    process_one_webhook by_count nothing_locked 300 delivery outbox
    ≡ ((claim_query nothing_locked 300 outbox).0, some true)
process_one_webhook_by_count_example =
    process_one_webhook_by_count by_count nothing_locked 300 delivery outbox (λ ws. refl)

-- Three attempts at the first notification while the receiver is down.
abbrev attempts : List OutboxCall
attempts =
    claim nothing_locked 300
    ∷ mark_failed 1 350
    ∷ claim nothing_locked 9000000
    ∷ mark_failed 1 9000050
    ∷ claim nothing_locked 90000000
    ∷ []

claims_bounded_example : claims_of 1 attempts outbox ≤ 2
claims_bounded_example =
    claims_bounded attempts outbox note_1 (tt, (tt, (tt, (tt, (tt, tt))))) outbox-UniqueIds
      (inl refl)

abbrev early : List OutboxCall
early = claim nothing_locked 400 ∷ mark_failed 2 500 ∷ claim nothing_locked 2000349 ∷ []

backoff_respected_example :
    (v : WebhookOutbox) × Has v (calls early (call (mark_failed 1 350) outbox))
    × (v.id ≡ 1)
    × (v.status ≡ pending)
    × (v.retry_count ≡ note_1.retry_count + 1)
backoff_respected_example =
    backoff_respected 350 early outbox note_1 (omega arith) outbox-UniqueIds (inl refl)
      (tt, (tt, (tt, tt))) (omega arith, ((λ e. ground (arith, e)), (omega arith, tt)))

abbrev stuck_note : WebhookOutbox
stuck_note = set_processing note_1

abbrev claims : List OutboxCall
claims = claim nothing_locked 300 ∷ mark_processed 2 320 ∷ claim nothing_locked 90000000 ∷ []
