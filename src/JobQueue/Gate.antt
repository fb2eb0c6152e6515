-- ===== src/JobQueue/Gate.antt =====
-- The gate of a run over time: while a job runs, every earlier job of its run has ended.
use postgres_pipeline_orches.Common.{
  ℕ, ◌≡◌, sym, ap, subst, ◌∙◌, inl, inr, Bool, true, List, arith, ◌==◌, if◌then◌else◌, Has, update,
  update-Has, Bool-cases,
}
use postgres_pipeline_orches.Common.Text.{Text}
use postgres_pipeline_orches.Common.Keys.{eq_of_key}
use postgres_pipeline_orches.Database.{pending, running, is_terminal, Job}
use postgres_pipeline_orches.JobQueue.{set_claimed, earlier}
use postgres_pipeline_orches.JobQueue.Rows.{UniqueIds, id_of}
use postgres_pipeline_orches.JobQueue.Claiming.{IsNext}

abbrev pub IsGated : List Job → Type 0
IsGated jobs =
    (j prev : Job)
    → Has j jobs
    → Has prev jobs
    → j.status ≡ running
    → prev.pipeline_run_id ≡ j.pipeline_run_id
    → earlier prev j ≡ true
    → is_terminal prev.status ≡ true

-- How one row of `jobs` may change and keep the gate: it stays in its place, does not start to run,
-- and does not come back once it has ended.
abbrev pub IsTame : Job → Job → Type 0
IsTame a b =
    (b.pipeline_run_id ≡ a.pipeline_run_id)
    × (b.stage_order ≡ a.stage_order)
    × (b.step_order ≡ a.step_order)
    × (b.status ≡ running → a.status ≡ running)
    × (is_terminal a.status ≡ true → is_terminal b.status ≡ true)

pub update-IsGated :
    (p : Job → Bool) (f : Job → Job) (jobs : List Job)
    → ((j : Job) → Has j jobs → IsTame j (if p j then f j else j))
    → IsGated jobs
    → IsGated (update p f jobs)
update-IsGated p f jobs tame g j prev hj hp r same e =
    let (a, ha, ea) = update-Has p f jobs j hj in
    let (b, hb, eb) = update-Has p f jobs prev hp in
    let ta : IsTame a j = subst (IsTame a) ea (tame a ha) in
    let tb : IsTame b prev = subst (IsTame b) eb (tame b hb) in
    tb.4 (g a b ha hb (ta.3 r) (sym tb.0 ∙ same ∙ ta.0) (ground arith))

module _ (locked : ℕ → Bool) (worker : Text) (now : ℕ) (jobs : List Job) (k : Job)
    (u : UniqueIds jobs) (n : IsNext locked jobs k) (g : IsGated jobs) where
  was_ended :
      (a j b : Job)
      → Has a jobs
      → Has b jobs
      → (if a.id == k.id then set_claimed worker now a else a) ≡ j
      → j.status ≡ running
      → b.pipeline_run_id ≡ a.pipeline_run_id
      → earlier b a ≡ true
      → is_terminal b.status ≡ true
  was_ended a j b ha hb ea r same e = elim (Bool-cases (a.id == k.id)) [
    | inl t ↦
        let q : a ≡ k = eq_of_key id_of jobs a k u ha n.stored (ground arith) in
        n.gate b hb (same ∙ ap (λ (x : Job). x.pipeline_run_id) q)
          (subst (λ x. earlier b x ≡ true) q e)
    | inr t ↦ g a b ha hb (ground arith) same e
  ]

  stays_ended :
      (b prev : Job)
      → Has b jobs
      → (if b.id == k.id then set_claimed worker now b else b) ≡ prev
      → is_terminal b.status ≡ true
      → is_terminal prev.status ≡ true
  stays_ended b prev hb eb t = elim (Bool-cases (b.id == k.id)) [
    | inl s ↦
        let q : b ≡ k = eq_of_key id_of jobs b k u hb n.stored (ground arith) in
        let w : b.status ≡ pending = ap (λ (x : Job). x.status) q ∙ n.waiting in ground arith
    | inr s ↦ ground arith
  ]

  pub claim-IsGated : IsGated (update (λ j. j.id == k.id) (set_claimed worker now) jobs)
  claim-IsGated j prev hj hp r same e =
      let (a, ha, ea) = update-Has (λ x. x.id == k.id) (set_claimed worker now) jobs j hj in
      let (b, hb, eb) = update-Has (λ x. x.id == k.id) (set_claimed worker now) jobs prev hp in
      stays_ended b prev hb eb (was_ended a j b ha hb ea r (ground arith) (ground arith))
