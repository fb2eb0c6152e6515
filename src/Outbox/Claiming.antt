-- ===== src/Outbox/Claiming.antt =====
-- What a claim of the outbox takes, and what `processOneWebhook` does with it.
use postgres_pipeline_orches.Common.{
  ℕ, ◌≤◌, ◌≡◌, refl, sym, ◌∙◌, inl, inr, Bool, true, false, not, ◌&&◌, none, some, [], ◌∷◌, arith,
  Has, select, select_sound, select_complete, select-eq-nil, any, Option-cases,
}
use postgres_pipeline_orches.Common.Keys.{UniqueKeys}
use postgres_pipeline_orches.Outbox.{WebhookOutbox, Outbox, pending, due, next_webhook, soonest}

abbrev pub id_of : WebhookOutbox → ℕ
id_of w = w.id

abbrev pub UniqueIds : Outbox → Type 0
UniqueIds = UniqueKeys id_of

soonest-Has : (ws : Outbox) (k : WebhookOutbox) → soonest ws ≡ some k → Has k ws
unfolding soonest
soonest-Has [] k h = cc
soonest-Has (w ∷ ws) k h = elim (Option-cases (soonest ws)) [
  | inl e ↦ ground arith
  | inr (v, e) ↦ ground (arith, soonest-Has ws v e)
]

soonest-eq-none : (ws : Outbox) → soonest ws ≡ none → ws ≡ []
unfolding soonest
soonest-eq-none [] h = refl
soonest-eq-none (w ∷ ws) h = ground arith

soonest_least :
    (ws : Outbox) (k a : WebhookOutbox)
    → soonest ws ≡ some k
    → Has a ws
    → k.next_retry_at ≤ a.next_retry_at
unfolding soonest
soonest_least [] k a h m = absurd m
soonest_least (w ∷ ws) k a h (inl e) = elim (Option-cases (soonest ws)) [
  | inl o ↦ ground arith
  | inr (v, o) ↦ ground arith
]
soonest_least (w ∷ ws) k a h (inr m) = elim (Option-cases (soonest ws)) [
  | inl o ↦ absurd (rw (soonest-eq-none ws o) at m)
  | inr (v, o) ↦ ground (arith, soonest_least ws v a o m)
]

-- What makes a row the next one to send.
pub record IsNext (locked : ℕ → Bool) (now : ℕ) (box : Outbox) (k : WebhookOutbox) : Type 0 where
  pub stored : Has k box
  pub waiting : k.status ≡ pending
  pub ripe : k.next_retry_at ≤ now
  pub free : locked k.id ≡ false
  pub soonest_due :
      (a : WebhookOutbox)
      → Has a box
      → due now a ≡ true
      → locked a.id ≡ false
      → k.next_retry_at ≤ a.next_retry_at

module _ (locked : ℕ → Bool) (now : ℕ) (box : Outbox) where
  candidate : WebhookOutbox → Bool
  candidate w = due now w && not (locked w.id)

  next-eq-soonest : next_webhook locked now box ≡ soonest (select candidate box)
  unfolding next_webhook candidate
  next-eq-soonest = refl

  candidate_iff :
      (w : WebhookOutbox)
      → (candidate w ≡ true
          → (w.status ≡ pending) × (w.next_retry_at ≤ now) × (locked w.id ≡ false))
        × (due now w ≡ true → locked w.id ≡ false → candidate w ≡ true)
  unfolding candidate
  candidate_iff w = ground arith

  pub next_webhook-IsNext :
      (k : WebhookOutbox) → next_webhook locked now box ≡ some k → IsNext locked now box k
  next_webhook-IsNext k h =
      let e = sym next-eq-soonest ∙ h in
      let (m, c) = select_sound candidate box k (soonest-Has _ k e) in
      let (w, r, f) = (candidate_iff k).0 c in
      record {
        stored = m;
        waiting = w;
        ripe = r;
        free = f;
        soonest_due = λ a n d l.
            soonest_least _ k a e (select_complete candidate box a n ((candidate_iff a).1 d l));
      }

  pub next_webhook-none :
      next_webhook locked now box ≡ none → any box (λ a. due now a && not (locked a.id)) ≡ false
  unfolding candidate
  next_webhook-none h = select-eq-nil candidate box (soonest-eq-none _ (sym next-eq-soonest ∙ h))
