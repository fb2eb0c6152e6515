-- ===== src/Outbox/Rows.antt =====
-- A row of the outbox through the statements of a history.
use postgres_pipeline_orches.Common.{
  ℕ, ◌≤◌, ◌≡◌, ◌≢◌, refl, sym, subst, inl, inr, Bool, Option, none, some, List, [], ◌∷◌, arith,
  ◌==◌, if◌then◌else◌, Has, Has-update, Has-append_left, Option-cases,
}
use postgres_pipeline_orches.Common.Keys.{update-UniqueKeys, insert-UniqueKeys, eq_of_key}
use postgres_pipeline_orches.Outbox.{
  WebhookOutbox, Outbox, OutboxCall, enqueue, claim, mark_processed, mark_failed, call, pending,
  new_notification, enqueue_notification, next_webhook, claim_query, set_processing, set_processed,
  set_failed, mark_webhook_processed, mark_webhook_failed,
}
use postgres_pipeline_orches.Outbox.Claiming.{id_of, UniqueIds, next_webhook-IsNext}

-- The uuid of a new row is new.
abbrev pub IsFresh : Outbox → OutboxCall → Type 0
IsFresh box (enqueue id now event_type payload webhook_url max_retries) =
    (w : WebhookOutbox) → Has w box → w.id ≢ id
IsFresh box _ = Unit {0}

abbrev pub AllFresh : List OutboxCall → Outbox → Type 0
AllFresh [] box = Unit {0}
AllFresh (c ∷ cs) box = IsFresh box c × AllFresh cs (call c box)

abbrev pub if_next : Option WebhookOutbox → WebhookOutbox → WebhookOutbox
if_next none w = w
if_next (some k) w = if w.id == k.id then set_processing w else w

abbrev pub row_after : OutboxCall → Outbox → WebhookOutbox → WebhookOutbox
row_after (enqueue id now event_type payload webhook_url max_retries) box w = w
row_after (claim locked now) box w = if_next (next_webhook locked now box) w
row_after (mark_processed id now) box w = if w.id == id then set_processed now w else w
row_after (mark_failed id now) box w = if w.id == id then set_failed now w else w

pub call-row :
    (c : OutboxCall) (box : Outbox) (w : WebhookOutbox)
    → Has w box
    → Has (row_after c box w) (call c box)
unfolding call enqueue_notification mark_webhook_processed mark_webhook_failed claim_query
call-row (enqueue id now event_type payload webhook_url max_retries) box w m =
    Has-append_left box _ w m
call-row (claim locked now) box w m = elim (Option-cases (next_webhook locked now box)) [
  | inl e ↦ rw (e, call, claim_query) m
  | inr (k, e) ↦ rw (e, call, claim_query) (Has-update (λ v. v.id == k.id) set_processing box w m)
]
call-row (mark_processed id now) box w m = Has-update (λ v. v.id == id) (set_processed now) box w m
call-row (mark_failed id now) box w m = Has-update (λ v. v.id == id) (set_failed now) box w m

pub call-UniqueIds :
    (c : OutboxCall) (box : Outbox) → IsFresh box c → UniqueIds box → UniqueIds (call c box)
unfolding call enqueue_notification mark_webhook_processed mark_webhook_failed claim_query
call-UniqueIds (enqueue id now event_type payload webhook_url max_retries) box f u =
    insert-UniqueKeys id_of box (new_notification id now event_type payload webhook_url max_retries)
      f u
call-UniqueIds (claim locked now) box f u = elim (Option-cases (next_webhook locked now box)) [
  | inl e ↦ rw (e, call, claim_query) u
  | inr (k, e) ↦
      rw (e, call, claim_query)
        (update-UniqueKeys id_of (λ v. v.id == k.id) set_processing box (λ w. refl) u)
]
call-UniqueIds (mark_processed id now) box f u =
    update-UniqueKeys id_of (λ v. v.id == id) (set_processed now) box (λ w. refl) u
call-UniqueIds (mark_failed id now) box f u =
    update-UniqueKeys id_of (λ v. v.id == id) (set_failed now) box (λ w. refl) u

pub row_after-id :
    (c : OutboxCall) (box : Outbox) (w : WebhookOutbox) → (row_after c box w).id ≡ w.id
row_after-id (enqueue id now event_type payload webhook_url max_retries) box w = refl
row_after-id (claim locked now) box w = elim (Option-cases (next_webhook locked now box)) [
  | inl e ↦ rw e refl
  | inr (k, e) ↦ rw e (ground arith)
]
row_after-id (mark_processed id now) box w = ground arith
row_after-id (mark_failed id now) box w = ground arith

-- A claim that takes the row finds it waiting and due.
pub taken_row :
    (locked : ℕ → Bool) (now : ℕ) (box : Outbox) (k w : WebhookOutbox)
    → UniqueIds box
    → Has w box
    → next_webhook locked now box ≡ some k
    → w.id ≡ k.id
    → (w.status ≡ pending) × (w.next_retry_at ≤ now)
taken_row locked now box k w u m e q =
    let n = next_webhook-IsNext locked now box k e in
    let same : k ≡ w = eq_of_key id_of box k w u n.stored m (sym q) in
    subst (λ (x : WebhookOutbox). (x.status ≡ pending) × (x.next_retry_at ≤ now)) same
      (n.waiting, n.ripe)
