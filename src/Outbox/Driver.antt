-- ===== src/Outbox/Driver.antt =====
-- `processOneWebhook` with a driver that answers an UPDATE with the rows and their number.
use postgres_pipeline_orches.Common.{
  ℕ, ◌≡◌, refl, inl, inr, Bool, true, ◌&&◌, none, some, List, if◌then◌else◌, Bool-cases,
}
use postgres_pipeline_orches.Database.{
  First, AnswersCount, Reply, fine, lost, failed, is_fine, if_done,
}
use postgres_pipeline_orches.Outbox.{
  WebhookOutbox, Outbox, Fetched, is_ok, item_of_list, claim_query, claim_next_webhook, read_item,
  send, Delivery, process_one_webhook,
}

same_box : (r : Reply) (box : Outbox) → if_done r box box ≡ box
same_box fine box = refl
same_box lost box = refl
same_box failed box = refl

-- Whether the item that has no id is sent, its reports change nothing.
no_report :
    (f : Fetched) (processed put_back : Reply) (now : ℕ) (box : Outbox)
    → send f processed put_back now none box ≡ (
      box,
      if is_ok f && is_fine processed
          then some true
          else if is_fine put_back
          then some true
          else none,
    )
unfolding send
no_report f processed put_back now box = elim (Bool-cases (is_ok f)) [
  | inl t ↦ elim (Bool-cases (is_fine processed)) [
    | inl u ↦ rw (t, u) refl
    | inr u ↦ rw (t, u, same_box processed box, same_box put_back box) refl
  ]
  | inr t ↦ rw (t, same_box put_back box) refl
]

-- From a driver that answers with the rows and their number, the only change that a call makes itself
-- is its claim: the rest is what others do meanwhile, whatever the POST answers and however the
-- reports end. A call that does not throw answers true, also where no notification is due, and one
-- throws only where the POST or the first report fails, and then the second.
pub process_one_webhook_by_count :
    (first : List WebhookOutbox → First WebhookOutbox) (locked : ℕ → Bool) (now : ℕ) (d : Delivery)
    (box : Outbox)
    → AnswersCount first
    → process_one_webhook first locked now d box ≡ (
      d.meanwhile (claim_query locked now box).0,
      if is_ok (d.fetch item_of_list) && is_fine d.processed
          then some true
          else if is_fine d.put_back
          then some true
          else none,
    )
unfolding process_one_webhook claim_next_webhook read_item
process_one_webhook_by_count first locked now d box a = rw a (
    no_report (d.fetch item_of_list) d.processed d.put_back d.later
      (d.meanwhile (claim_query locked now box).0))
