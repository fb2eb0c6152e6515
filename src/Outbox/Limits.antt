-- ===== src/Outbox/Limits.antt =====
-- How often a notification is sent, when it is sent again, and when never.
use postgres_pipeline_orches.Common.{
  ℕ, suc, ◌+◌, ◌-◌, ◌*◌, ◌^◌, ◌≤◌, ◌<◌, ◌≡◌, ◌≢◌, refl, sym, subst, inl, inr, false, Option, none,
  some, List, [], ◌∷◌, arith, ◌==◌, if◌then◌else◌, All, Has, Option-cases, Bool-cases,
}
use postgres_pipeline_orches.Outbox.{
  OutboxStatus, WebhookOutbox, Outbox, OutboxCall, enqueue, claim, mark_processed, mark_failed,
  call, calls, pending, next_webhook, set_failed, spent, second,
}
use postgres_pipeline_orches.Outbox.Claiming.{UniqueIds}
use postgres_pipeline_orches.Outbox.Rows.{
  AllFresh, row_after, call-row, call-UniqueIds, row_after-id, taken_row,
}

-- The claims that take the row `i`.
abbrev pub takes : ℕ → Option WebhookOutbox → ℕ
takes i none = 0
takes i (some k) = if i == k.id then 1 else 0

abbrev pub taken : ℕ → OutboxCall → Outbox → ℕ
taken i (claim locked now) box = takes i (next_webhook locked now box)
taken i _ box = 0

unfoldable pub claims_of : ℕ → List OutboxCall → Outbox → ℕ
claims_of i [] box = 0
claims_of i (c ∷ cs) box = taken i c box + claims_of i cs (call c box)

-- A row that waits has one claim more than its retries, if it has any.
abbrev pub claims_left : OutboxStatus → ℕ → ℕ → ℕ
claims_left pending retries limit = suc (limit - suc retries)
claims_left _ retries limit = limit - suc retries

abbrev left_of : WebhookOutbox → ℕ
left_of w = claims_left w.status w.retry_count w.max_retries

failed_left : (now : ℕ) (w : WebhookOutbox) → left_of (set_failed now w) ≤ left_of w
failed_left now w = ground arith

call-left :
    (c : OutboxCall) (box : Outbox) (w : WebhookOutbox)
    → UniqueIds box
    → Has w box
    → taken w.id c box + left_of (row_after c box w) ≤ left_of w
call-left (enqueue id now event_type payload webhook_url max_retries) box w u m = ground arith
call-left (claim locked now) box w u m = elim (Option-cases (next_webhook locked now box)) [
  | inl e ↦ rw e (ground arith)
  | inr (k, e) ↦ elim (Bool-cases (w.id == k.id)) [
    | inl t ↦
        let (p, ripe) = taken_row locked now box k w u m e (ground (arith, t)) in
        rw (e, t, p) (ground arith)
    | inr t ↦ rw (e, t) (ground arith)
  ]
]
call-left (mark_processed id now) box w u m = ground arith
call-left (mark_failed id now) box w u m = elim (Bool-cases (w.id == id)) [
  | inl t ↦ rw t (omega (arith, failed_left now w))
  | inr t ↦ rw t (ground arith)
]

-- Over any history of statements in which the ids of new rows are fresh, whatever is reported and by
-- whom, a stored notification is claimed at most as often as it has claims left: while it waits, once
-- more than the retries that are still to come before its limit, and else as often as those.
pub claims_bounded :
    (cs : List OutboxCall) (box : Outbox) (w : WebhookOutbox)
    → AllFresh cs box
    → UniqueIds box
    → Has w box
    → claims_of w.id cs box ≤ claims_left w.status w.retry_count w.max_retries
unfolding claims_of
claims_bounded [] box w f u m = omega arith
claims_bounded (c ∷ cs) box w f u m =
    let ih =
      claims_bounded cs (call c box) (row_after c box w) f.1 (call-UniqueIds c box f.0 u)
        (call-row c box w m) in
    let ih' =
      subst (λ i. claims_of i cs (call c box) ≤ left_of (row_after c box w)) (row_after-id c box w)
        ih in
    omega (arith, call-left c box w u m, ih')

-- A call that does not reach a row: no report of it, and no claim while it waits and is due.
abbrev pub Passes : WebhookOutbox → OutboxCall → Type 0
Passes w (enqueue id now event_type payload webhook_url max_retries) = Unit {0}
Passes w (claim locked now) = w.status ≡ pending → now < w.next_retry_at
Passes w (mark_processed id now) = w.id ≢ id
Passes w (mark_failed id now) = w.id ≢ id

passed_row :
    (c : OutboxCall) (box : Outbox) (w : WebhookOutbox)
    → Passes w c
    → UniqueIds box
    → Has w box
    → row_after c box w ≡ w
passed_row (enqueue id now event_type payload webhook_url max_retries) box w p u m = refl
passed_row (claim locked now) box w p u m = elim (Option-cases (next_webhook locked now box)) [
  | inl e ↦ rw e refl
  | inr (k, e) ↦ elim (Bool-cases (w.id == k.id)) [
    | inl t ↦
        let (q, ripe) = taken_row locked now box k w u m e (ground (arith, t)) in
        absurd (omega (arith, ripe, p q))
    | inr t ↦ rw (e, t) refl
  ]
]
passed_row (mark_processed id now) box w p u m = ground (arith, p)
passed_row (mark_failed id now) box w p u m = ground (arith, p)

undisturbed :
    (cs : List OutboxCall) (box : Outbox) (w : WebhookOutbox)
    → All (Passes w) cs
    → AllFresh cs box
    → UniqueIds box
    → Has w box
    → Has w (calls cs box)
unfolding calls
undisturbed [] box w p f u m = m
undisturbed (c ∷ cs) box w p f u m =
    undisturbed cs (call c box) w p.1 f.1 (call-UniqueIds c box f.0 u)
      (subst (λ v. Has v (call c box)) (passed_row c box w p.0 u m) (call-row c box w m))

-- No claim before `time`, and no report of `i`.
abbrev pub IsEarly : ℕ → ℕ → OutboxCall → Type 0
IsEarly i time (enqueue id now event_type payload webhook_url max_retries) = Unit {0}
IsEarly i time (claim locked now) = now < time
IsEarly i time (mark_processed id now) = i ≢ id
IsEarly i time (mark_failed id now) = i ≢ id

early-Passes :
    (w : WebhookOutbox) (cs : List OutboxCall)
    → All (IsEarly w.id w.next_retry_at) cs
    → All (Passes w) cs
early-Passes w [] h = tt
early-Passes w (enqueue id now event_type payload webhook_url max_retries ∷ cs) h =
    (tt, early-Passes w cs h.1)
early-Passes w (claim locked now ∷ cs) h = (λ q. h.0, early-Passes w cs h.1)
early-Passes w (mark_processed id now ∷ cs) h = (h.0, early-Passes w cs h.1)
early-Passes w (mark_failed id now ∷ cs) h = (h.0, early-Passes w cs h.1)

-- A stored notification that is marked as failed at `now`, with a retry left after it, waits: over any
-- history of statements behind that, in which the ids of new rows are fresh, with no report of it and
-- with every claim before 2 to the power of its new retry count, in seconds, after `now`, it stays
-- stored as pending, with one retry more.
pub backoff_respected :
    (now : ℕ) (cs : List OutboxCall) (box : Outbox) (w : WebhookOutbox)
    → w.retry_count + 1 < w.max_retries
    → UniqueIds box
    → Has w box
    → AllFresh cs (call (mark_failed w.id now) box)
    → All (IsEarly w.id (now + 2 ^ (w.retry_count + 1) * second)) cs
    → (v : WebhookOutbox) × Has v (calls cs (call (mark_failed w.id now) box))
      × (v.id ≡ w.id)
      × (v.status ≡ pending)
      × (v.retry_count ≡ w.retry_count + 1)
backoff_respected now cs box w r u m f h =
    let few : spent w ≡ false = ground (arith, r) in
    let waits : (set_failed now w).next_retry_at ≡ now + 2 ^ (w.retry_count + 1) * second =
      rw few refl in
    let row : row_after (mark_failed w.id now) box w ≡ set_failed now w = ground arith in
    let stored : Has (set_failed now w) (call (mark_failed w.id now) box) =
      subst (λ v. Has v (call (mark_failed w.id now) box)) row
        (call-row (mark_failed w.id now) box w m) in
    (
      set_failed now w,
      undisturbed cs (call (mark_failed w.id now) box) (set_failed now w)
          (early-Passes (set_failed now w) cs (subst (λ t. All (IsEarly w.id t) cs) (sym waits) h))
          f (call-UniqueIds (mark_failed w.id now) box tt u) stored,
      refl,
      rw few refl,
      refl,
    )

-- A call that is no report of the row `i`.
abbrev pub IsOther : ℕ → OutboxCall → Type 0
IsOther i (mark_processed id now) = i ≢ id
IsOther i (mark_failed id now) = i ≢ id
IsOther i _ = Unit {0}
