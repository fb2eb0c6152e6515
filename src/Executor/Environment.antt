-- ===== src/Executor/Environment.antt =====
-- `guessDeployEnvironment` of `src/worker/job-executor.service.ts`.
use postgres_pipeline_orches.Common.{
  ℕ, Bool, true, false, ◌&&◌, ◌||◌, Option, none, some, List, [], ◌∷◌, ◌++◌, leb, ◌==◌,
  if◌then◌else◌, any,
}
use postgres_pipeline_orches.Common.Text.{Text, codes, text_eq}

-- The white space of `trim` and `\s`.
abbrev pub is_space : ℕ → Bool
is_space c =
    (leb 9 c && leb c 13)
    || c == 32
    || c == 160
    || c == 0x1680
    || (leb 0x2000 c && leb c 0x200a)
    || c == 0x2028
    || c == 0x2029
    || c == 0x202f
    || c == 0x205f
    || c == 0x3000
    || c == 0xfeff

abbrev pub trim_start : Text → Text
trim_start [] = []
trim_start (c ∷ s) = if is_space c then trim_start s else c ∷ s

abbrev pub keep_char : ℕ → Text → Text
keep_char c [] = if is_space c then [] else c ∷ []
keep_char c (d ∷ s) = c ∷ d ∷ s

abbrev pub trim_end : Text → Text
trim_end [] = []
trim_end (c ∷ s) = keep_char c (trim_end s)

abbrev pub trim : Text → Text
trim s = trim_end (trim_start s)

-- A part of the split, unless `filter(Boolean)` drops it.
abbrev pub kept : Text → List Text
kept [] = []
kept (c ∷ s) = (c ∷ s) ∷ []

-- `split(/\s+/).filter(Boolean)` of a text whose first part begins with `cur`.
unfoldable pub words_from : Text → Text → List Text
words_from cur [] = kept cur
words_from cur (c ∷ s) =
    let ended = kept cur ++ words_from [] s in
    let longer = words_from (cur ++ c ∷ []) s in if is_space c then ended else longer

-- `tokens.at(-1)`
unfoldable pub last_word : List Text → Option Text
last_word [] = none
last_word (w ∷ []) = some w
last_word (w ∷ v ∷ ws) = last_word (v ∷ ws)

abbrev pub starts_with : Text → Text → Bool
starts_with s [] = true
starts_with [] (p ∷ ps) = false
starts_with (c ∷ s) (p ∷ ps) = c == p && starts_with s ps

-- `s.includes(p)`
unfoldable pub includes : Text → Text → Bool
includes [] p = starts_with [] p
includes (c ∷ s) p = starts_with (c ∷ s) p || includes s p

abbrev pub production : Text
production = codes "production"

abbrev pub staging : Text
staging = codes "staging"

abbrev pub environments : List Text
environments = production ∷ staging ∷ codes "dev" ∷ codes "test" ∷ []

-- The answer where the last word is no environment.
abbrev pub by_content : Text → Text
by_content cmd =
    if includes cmd production
    then production
    else if includes cmd staging
    then staging
    else production

abbrev pub is_environment : Text → Bool
is_environment w = any environments (λ e. text_eq e w)

abbrev pub by_last_word : Option Text → Text → Text
by_last_word none cmd = by_content cmd
by_last_word (some w) cmd = if is_environment w then w else by_content cmd

unfoldable pub guess_deploy_environment : Text → Text
unfolding words_from last_word includes
guess_deploy_environment command =
    let cmd = trim command in by_last_word (last_word (words_from [] cmd)) cmd
