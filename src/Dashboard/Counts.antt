-- ===== src/Dashboard/Counts.antt =====
-- What the statistics of a pipeline count.
use postgres_pipeline_orches.Common.{
  ℕ, ◌+◌, ◌≡◌, ◌≢◌, refl, sym, ap, subst, ◌∙◌, ◌⊎◌, inl, inr, Bool, true, ◌&&◌, Option, none, some,
  List, [], ◌∷◌, map, arith, ltb, ◌==◌, select, length, Has, Has-append,
}
use postgres_pipeline_orches.Database.{PipelineRun, is_failed}
use postgres_pipeline_orches.Runs.{Pipeline}
use postgres_pipeline_orches.Dashboard.Stats.{
  PipelineStatsRow, thirty_days, or_no_run, joined, is_recent, is_success, count_runs, stats_of,
  pipeline_stats,
}

-- The runs of a pipeline in the last thirty days.
abbrev pub is_counted : ℕ → Pipeline → PipelineRun → Bool
is_counted now p r = r.pipeline_id == p.id && ltb now (r.created_at + thirty_days)

select-map :
    (now : ℕ) (rs : List PipelineRun)
    → select (is_recent now) (map some rs)
      ≡ map some (select (λ r. ltb now (r.created_at + thirty_days)) rs)
select-map now [] = refl
select-map now (r ∷ rs) = ground (arith, select-map now rs)

select-select :
    (now : ℕ) (p : Pipeline) (rs : List PipelineRun)
    → select (λ r. ltb now (r.created_at + thirty_days)) (select (λ r. r.pipeline_id == p.id) rs)
      ≡ select (is_counted now p) rs
select-select now p [] = refl
select-select now p (r ∷ rs) = ground (arith, select-select now p rs)

count_some :
    (q : PipelineRun → Bool) (rs : List PipelineRun)
    → count_runs q (map some rs) ≡ length (select q rs)
unfolding count_runs
count_some q [] = refl
count_some q (r ∷ rs) = ground (arith, count_some q rs)

abbrev pub own_runs : Pipeline → List PipelineRun → List PipelineRun
own_runs p = select (λ r. r.pipeline_id == p.id)

-- What a row of the view tells of its pipeline.
pub record IsRowOf (now : ℕ) (runs : List PipelineRun) (p : Pipeline) (row : PipelineStatsRow)
    : Type 0 where
  pub same_id : row.pipeline_id ≡ p.id
  pub same_name : row.name ≡ p.name
  pub total : row.total_runs ≡ length (select (is_counted now p) runs)
  pub successes :
      row.success_count
      ≡ length (select (λ r. is_success r.status) (select (is_counted now p) runs))
  pub failures :
      row.failure_count ≡ length (select (λ r. is_failed r.status) (select (is_counted now p) runs))
  pub none_at_all : row.total_runs ≡ 0 → own_runs p runs ≡ []

module _ (now : ℕ) (runs : List PipelineRun) where
  group_none :
      (p : Pipeline) → own_runs p runs ≡ [] → select (is_recent now) (joined p runs) ≡ none ∷ []
  unfolding joined
  group_none p e = rw e refl

  or_no_run-some :
      (rs : List PipelineRun) (r : PipelineRun) (rest : List PipelineRun)
      → rs ≡ r ∷ rest
      → or_no_run rs ≡ map some rs
  or_no_run-some [] r rest e = cc
  or_no_run-some (x ∷ rs) r rest e = refl

  group_some :
      (p : Pipeline) (r : PipelineRun) (rest : List PipelineRun)
      → own_runs p runs ≡ r ∷ rest
      → select (is_recent now) (joined p runs) ≡ map some (select (is_counted now p) runs)
  unfolding joined
  group_some p r rest e =
      ap (select (is_recent now)) (or_no_run-some (own_runs p runs) r rest e)
      ∙ select-map now (own_runs p runs)
      ∙ ap (map some) (select-select now p runs)

  -- What a row of a group counts.
  abbrev Counted : Pipeline → List (Option PipelineRun) → PipelineStatsRow → Type 0
  Counted p rows y =
      (y.pipeline_id ≡ p.id)
      × (y.name ≡ p.name)
      × (y.total_runs ≡ count_runs (λ r. true) rows)
      × (y.success_count ≡ count_runs (λ r. is_success r.status) rows)
      × (y.failure_count ≡ count_runs (λ r. is_failed r.status) rows)
      × (rows ≢ [])

  stats_of-Counted :
      (p : Pipeline) (rows : List (Option PipelineRun)) (row : PipelineStatsRow)
      → Has row (stats_of p rows)
      → Counted p rows row
  stats_of-Counted p [] row m = absurd m
  stats_of-Counted p (x ∷ rows) row (inr m) = absurd m
  stats_of-Counted p (x ∷ rows) row (inl e) =
      subst (Counted p (x ∷ rows)) e (refl, refl, refl, refl, refl, λ q. cc)

  list_cases :
      (rs : List PipelineRun)
      → (rs ≡ []) ⊎ ((r : PipelineRun) × (rest : List PipelineRun) × (rs ≡ r ∷ rest))
  list_cases [] = inl refl
  list_cases (r ∷ rs) = inr (r, rs, refl)

  none_counted : (p : Pipeline) → own_runs p runs ≡ [] → select (is_counted now p) runs ≡ []
  none_counted p e =
      sym (select-select now p runs)
      ∙ ap (select (λ (r : PipelineRun). ltb now (r.created_at + thirty_days))) e

  group_count :
      (p : Pipeline) (q : PipelineRun → Bool)
      → count_runs q (select (is_recent now) (joined p runs))
        ≡ length (select q (select (is_counted now p) runs))
  unfolding count_runs
  group_count p q = elim (list_cases (own_runs p runs)) [
    | inl e ↦
        ap (count_runs q) (group_none p e)
        ∙ ap (λ rs. length (select q rs)) (sym (none_counted p e))
    | inr (r, rest, e) ↦
        ap (count_runs q) (group_some p r rest e) ∙ count_some q (select (is_counted now p) runs)
  ]

  select_all : (rs : List PipelineRun) → select (λ r. true) rs ≡ rs
  select_all [] = refl
  select_all (r ∷ rs) = ap (λ x. r ∷ x) (select_all rs)

  length_zero : (rs : List PipelineRun) → length rs ≡ 0 → rs ≡ []
  length_zero [] h = refl
  length_zero (r ∷ rs) h = absurd (omega (arith, h))

  group_IsRowOf :
      (p : Pipeline) (row : PipelineStatsRow)
      → Has row (stats_of p (select (is_recent now) (joined p runs)))
      → IsRowOf now runs p row
  group_IsRowOf p row m =
      let counted = select (is_counted now p) runs in
      let (i, n, t, u, v, ne) = stats_of-Counted p (select (is_recent now) (joined p runs)) row m in
      let total : row.total_runs ≡ length counted =
        t ∙ group_count p (λ r. true) ∙ ap length (select_all counted) in
      record {
        same_id = i;
        same_name = n;
        total = total;
        successes = u ∙ group_count p (λ r. is_success r.status);
        failures = v ∙ group_count p (λ r. is_failed r.status);
        none_at_all = λ z. elim (list_cases (own_runs p runs)) [
          | inl e ↦ e
          | inr (r, rest, e) ↦
              absurd
                (ne (group_some p r rest e ∙ ap (map some) (length_zero counted (sym total ∙ z))))
        ];
      }

  -- Every row of the view is that of a pipeline: its counts are of its runs of the last thirty days,
  -- of all, of the successes and of the failures; and a total of 0 is shown only of a pipeline that has
  -- no run at all.
  pub stats_row_lem :
      (ps : List Pipeline) (row : PipelineStatsRow)
      → Has row (pipeline_stats now runs ps)
      → (p : Pipeline) × Has p ps × IsRowOf now runs p row
  unfolding pipeline_stats
  stats_row_lem [] row m = absurd m
  stats_row_lem (p ∷ ps) row m =
      elim (Has-append (stats_of p (select (is_recent now) (joined p runs))) _ row m) [
        | inl a ↦ (p, inl refl, group_IsRowOf p row a)
        | inr b ↦ let (q, h, i) = stats_row_lem ps row b in (q, inr h, i)
      ]
