-- ===== src/Webhooks/GitWebhook.antt =====
-- `getRepoFromPayload` and `handlePush`.
use postgres_pipeline_orches.Common.{ℕ, Option, none, some, List, [], ◌∷◌, find?}
use postgres_pipeline_orches.Common.Text.{Text, codes, text_eq}
use postgres_pipeline_orches.Common.Json.{Json, str, get}
use postgres_pipeline_orches.Database.{Status}
use postgres_pipeline_orches.JobQueue.{or_also}
use postgres_pipeline_orches.Runs.{
  Pipeline, Store, Triggered, triggered, pipeline_not_found, run_not_created, insert_failed,
  Inserts, trigger_run,
}

-- `typeof v.k === 'string'`. Of a value that is no object, also of `null` and `undefined`, which the
-- code passes over, there is none.
unfoldable pub string_at : Text → Option Json → Option Text
unfolding get
string_at k none = none
string_at k (some v) = elim (get k v) [ some (str t) ↦ some t | _ ↦ none ]

-- A JSON object has each key once.
unfoldable pub get_repo_from_payload : Json → Option Text
unfolding string_at
get_repo_from_payload body =
    let repo = get (codes "repository") body in
    let project = get (codes "project") body in
    or_also (string_at (codes "repo") (some body)) (
      or_also (string_at (codes "full_name") repo) (
        or_also (string_at (codes "clone_url") repo) (
          or_also (string_at (codes "path_with_namespace") project)
            (string_at (codes "web_url") project))))

abbrev pub find_by_repository : Text → List Pipeline → Option Pipeline
find_by_repository repo = find? (λ p. text_eq p.repository repo)

-- The answer to the request; `server_error` is an Error that the handler lets pass.
pub data Answer : Type 0 where
  accepted : (run_id pipeline_id : ℕ) → Status → Answer
  bad_request : Answer
  not_found : Text → Answer
  server_error : Answer

abbrev pub answer_of : ℕ → Triggered → Answer
answer_of pipeline_id (triggered run) = accepted run.id pipeline_id run.status
answer_of pipeline_id pipeline_not_found = server_error
answer_of pipeline_id run_not_created = server_error
answer_of pipeline_id insert_failed = server_error

-- Behind `if (!repo)`, which an empty string satisfies too.
unfoldable pub push_to : ℕ → Inserts → ℕ → Json → Text → Store → Store × Answer
push_to id made now body repo s = elim (find_by_repository repo s.pipelines) [
  | none ↦ (s, not_found repo)
  | some p ↦
      let (s', t) = trigger_run id made now p.id (codes "git_push") (some body) s in
      (s', answer_of p.id t)
]

unfoldable pub handle_push : ℕ → Inserts → ℕ → Json → Store → Store × Answer
unfolding push_to
handle_push id made now body s = elim (get_repo_from_payload body) [
  | none ↦ (s, bad_request)
  | some [] ↦ (s, bad_request)
  | some (c ∷ cs) ↦ push_to id made now body (c ∷ cs) s
]
