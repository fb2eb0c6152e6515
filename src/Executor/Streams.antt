-- ===== src/Executor/Streams.antt =====
-- What `execute` logs of its child and the exit code that it returns.
use postgres_pipeline_orches.Common.{
  ℕ, ◌≡◌, refl, sym, ap, ◌∙◌, Bool, true, false, Option, some, List, [], ◌∷◌, ◌++◌, if◌then◌else◌,
  append-nil,
}
use postgres_pipeline_orches.Common.Text.{Text}
use postgres_pipeline_orches.Executor.{
  write, flush, stream_lines, Level, info, warn, error, Chunk, out, err, closed, Effect, append_log,
  log_lines, child_log,
}

-- What the child wrote to each stream.
unfoldable pub stdout_of : List Chunk → List Text
stdout_of [] = []
stdout_of (out c ∷ cs) = c ∷ stdout_of cs
stdout_of (err c ∷ cs) = stdout_of cs

unfoldable pub stderr_of : List Chunk → List Text
stderr_of [] = []
stderr_of (out c ∷ cs) = stderr_of cs
stderr_of (err c ∷ cs) = c ∷ stderr_of cs

abbrev pub same_level : Level → Level → Bool
same_level info info = true
same_level warn warn = true
same_level error error = true
same_level _ _ = false

-- The lines that are logged at a level.
unfoldable pub lines_at : Level → List Effect → List Text
lines_at level [] = []
lines_at level (append_log l k ∷ es) =
    let rest = lines_at level es in if same_level level k then l ∷ rest else rest
lines_at level (_ ∷ es) = lines_at level es

lines_at-info :
    (ls : List Text) (es : List Effect)
    → lines_at info (log_lines info ls ++ es) ≡ ls ++ lines_at info es
unfolding lines_at
lines_at-info [] es = refl
lines_at-info (l ∷ ls) es = ap (λ r. l ∷ r) (lines_at-info ls es)

lines_at-error :
    (ls : List Text) (es : List Effect)
    → lines_at error (log_lines error ls ++ es) ≡ ls ++ lines_at error es
unfolding lines_at
lines_at-error [] es = refl
lines_at-error (l ∷ ls) es = ap (λ r. l ∷ r) (lines_at-error ls es)

info_passes :
    (ls : List Text) (es : List Effect)
    → lines_at error (log_lines info ls ++ es) ≡ lines_at error es
unfolding lines_at
info_passes [] es = refl
info_passes (l ∷ ls) es = info_passes ls es

error_passes :
    (ls : List Text) (es : List Effect)
    → lines_at info (log_lines error ls ++ es) ≡ lines_at info es
unfolding lines_at
error_passes [] es = refl
error_passes (l ∷ ls) es = error_passes ls es

-- However the two streams are interleaved, a child that closes has the lines of its standard output
-- logged as info and those of its standard error as errors, each in order, as if it were the only
-- stream.
pub streams_apart :
    (stdout stderr : Text) (chunks : List Chunk) (code : Option ℕ)
    → (lines_at info (child_log stdout stderr chunks (some (closed code)))
        ≡ stream_lines stdout (stdout_of chunks))
      × (lines_at error (child_log stdout stderr chunks (some (closed code)))
          ≡ stream_lines stderr (stderr_of chunks))
unfolding lines_at child_log stream_lines stdout_of stderr_of
streams_apart o e [] code = (
  lines_at-info (flush o) _
      ∙ ap (λ ls. flush o ++ ls)
          (ap (lines_at info) (sym (append-nil (log_lines error (flush e))))
            ∙ error_passes (flush e) [])
      ∙ append-nil (flush o),
  info_passes (flush o) _
      ∙ ap (lines_at error) (sym (append-nil (log_lines error (flush e))))
      ∙ lines_at-error (flush e) []
      ∙ append-nil (flush e),
)
streams_apart o e (out c ∷ cs) code =
    let (i, r) = streams_apart (write o c).0 e cs code in
    (
      lines_at-info (write o c).1 _ ∙ ap (λ ls. (write o c).1 ++ ls) i,
      info_passes (write o c).1 _ ∙ r,
    )
streams_apart o e (err c ∷ cs) code =
    let (i, r) = streams_apart o (write e c).0 cs code in
    (
      error_passes (write e c).1 _ ∙ i,
      lines_at-error (write e c).1 _ ∙ ap (λ ls. (write e c).1 ++ ls) r,
    )
