-- ===== src/Tests/Output.antt =====
-- The output of a command that prints two lines and a prompt.
use postgres_pipeline_orches.Common.{ℕ, ◌≡◌, refl, List, [], ◌∷◌, ◌++◌}
use postgres_pipeline_orches.Common.Text.{Text, codes}
use postgres_pipeline_orches.Executor.{newline, guess_deploy_environment}

abbrev two_lines : List Text
two_lines = codes "ok" ∷ codes "12 tests" ∷ []

abbrev prompt : Text
prompt = codes ">"

-- Its output, in two chunks that cut a line.
abbrev cut : List (List ℕ)
cut = (codes "ok" ++ newline ∷ codes "12 t") ∷ (codes "ests" ++ newline ∷ codes ">") ∷ []

-- A decoder that reads each byte as a character, as UTF-8 reads those below 128.
abbrev ascii : List ℕ → Text
ascii bytes = bytes

environment_of : guess_deploy_environment (codes "kubectl apply -f prod.yaml") ≡ codes "production"
unfolding guess_deploy_environment
environment_of = refl
