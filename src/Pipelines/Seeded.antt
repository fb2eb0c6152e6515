-- ===== src/Pipelines/Seeded.antt =====
-- What the seed leaves, and the pushes that then find no pipeline.
use postgres_pipeline_orches.Common.{
  ℕ, ◌≡◌, ◌≢◌, refl, inl, inr, Bool-cases, Bool, true, false, none, some, List, [], ◌∷◌, arith,
  ◌==◌,
}
use postgres_pipeline_orches.Common.Text.{Text, codes}
use postgres_pipeline_orches.Common.Json.{Json, get}
use postgres_pipeline_orches.Database.{Db}
use postgres_pipeline_orches.Runs.{Pipeline, Store, Inserts}
use postgres_pipeline_orches.Pipelines.{create}
use postgres_pipeline_orches.Pipelines.Seed.{seed_rows, seed_pipelines_if_empty}
use postgres_pipeline_orches.Webhooks.{
  not_found, get_repo_from_payload, find_by_repository, handle_push, push_to, string_at,
}

pub seed_full :
    (saves : ℕ → Bool) (ids times : ℕ → ℕ) (ps : List Pipeline) (s : Store)
    → s.pipelines ≡ ps
    → ps ≢ []
    → seed_pipelines_if_empty saves ids times s ≡ (s, true)
unfolding seed_pipelines_if_empty
seed_full saves ids times [] s e n = absurd (n refl)
seed_full saves ids times (p ∷ ps) s e n = rw e refl

module _ (ids times : ℕ → ℕ) where
  -- A seed that goes through leaves a pipeline.
  pub seeded :
      (saves : ℕ → Bool) (ps : List Pipeline) (s : Store)
      → s.pipelines ≡ ps
      → (seed_pipelines_if_empty saves ids times s).1 ≡ true
      → (seed_pipelines_if_empty saves ids times s).0.pipelines ≢ []
  unfolding seed_pipelines_if_empty seed_rows create
  seeded saves [] s e t = elim (Bool-cases (saves 0)) [
    | inl a ↦ elim (Bool-cases (saves 1)) [
      | inl b ↦ elim (Bool-cases (saves 2)) [
        | inl c ↦ rw (e, a, b, c) (λ q. cc)
        | inr c ↦ rw (e, a, b, c) (λ q. cc)
      ]
      | inr b ↦ rw (e, a, b) (λ q. cc)
    ]
    | inr a ↦ (let f : false ≡ true = rw (e, a) at t in cc)
  ]
  seeded saves (p ∷ ps) s e t = rw e (λ q. let r : (p ∷ ps) ≡ [] = q in cc)

  named :
      (body : Json) (t : Text)
      → string_at (codes "repo") (some body) ≡ none
      → string_at (codes "full_name") (get (codes "repository") body) ≡ some t
      → get_repo_from_payload body ≡ some t
  unfolding get_repo_from_payload
  named body t r f = rw (r, f) refl

  unmatched :
      (db : Db) (c : ℕ) (name : Text)
      → c ≢ 104
      → find_by_repository
          (c ∷ name)
          (seed_pipelines_if_empty
            (λ k. true)
            ids
            times
            (record { pipelines = []; db = db })).0.pipelines
        ≡ none
  unfolding seed_pipelines_if_empty seed_rows create
  unmatched db c name n = let t : (104 == c) ≡ false = ground (arith, n) in rw t refl

  push_unmatched :
      (id : ℕ) (made : Inserts) (now : ℕ) (body : Json) (t : Text) (s : Store)
      → find_by_repository t s.pipelines ≡ none
      → push_to id made now body t s ≡ (s, not_found t)
  unfolding push_to
  push_unmatched id made now body t s e = rw (e, push_to) refl

  -- On the pipelines of a fresh seed: a push whose body has no `repo`, and whose `repository` has a
  -- `full_name` that does not begin with "h", finds no pipeline and changes nothing, whatever the
  -- `clone_url` is.
  pub seeded_unmatched :
      (db : Db) (id : ℕ) (made : Inserts) (now : ℕ) (body : Json) (c : ℕ) (name : Text)
      → string_at (codes "repo") (some body) ≡ none
      → string_at (codes "full_name") (get (codes "repository") body) ≡ some (c ∷ name)
      → c ≢ 104
      → let s =
          (seed_pipelines_if_empty (λ k. true) ids times (record { pipelines = []; db = db })).0 in
        handle_push id made now body s ≡ (s, not_found (c ∷ name))
  unfolding handle_push
  seeded_unmatched db id made now body c name r f n =
      rw (named body (c ∷ name) r f, handle_push)
        (push_unmatched id made now body (c ∷ name) _ (unmatched db c name n))
