-- ===== src/JobQueue/Least.antt =====
-- The order of the claim query is a strict weak order, and `least` finds a least row.
use postgres_pipeline_orches.Common.{
  ◌≡◌, inl, inr, true, false, none, some, List, [], ◌∷◌, arith, Has, Option-cases,
}
use postgres_pipeline_orches.Database.{Job}
use postgres_pipeline_orches.JobQueue.{before, least}

pub before_irrefl : (a : Job) → before a a ≡ false
unfolding before
before_irrefl a = ground arith

pub before_asymm : (a b : Job) → before a b ≡ true → before b a ≡ false
unfolding before
before_asymm a b h = ground arith

pub before_trans : (a b c : Job) → before a b ≡ false → before b c ≡ false → before a c ≡ false
unfolding before
before_trans a b c h k = ground arith

pub least-eq-none : (js : List Job) → least js ≡ none → js ≡ []
unfolding least
least-eq-none [] h = cc
least-eq-none (j ∷ js) h = ground arith

pub least-Has : (js : List Job) (k : Job) → least js ≡ some k → Has k js
unfolding least
least-Has [] k h = cc
least-Has (j ∷ js) k h = elim (Option-cases (least js)) [
  | inl e ↦ ground arith
  | inr (m, e) ↦ ground (arith, least-Has js m e)
]

-- No row comes before the least one.
pub least_minimal : (js : List Job) (k a : Job) → least js ≡ some k → Has a js → before a k ≡ false
unfolding least
least_minimal [] k a h m = absurd m
least_minimal (j ∷ js) k a h (inl e) = elim (Option-cases (least js)) [
  | inl o ↦ ground (arith, before_irrefl j)
  | inr (m, o) ↦ ground (arith, before_irrefl j, before_asymm m j)
]
least_minimal (j ∷ js) k a h (inr i) = elim (Option-cases (least js)) [
  | inl o ↦ absurd (rw (least-eq-none js o) at i)
  | inr (m, o) ↦ ground (arith, least_minimal js m a o i, before_trans a m j)
]
