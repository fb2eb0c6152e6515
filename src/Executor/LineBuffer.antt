-- ===== src/Executor/LineBuffer.antt =====
-- `createLineBuffer` of `src/worker/job-executor.service.ts`. A buffer is its one variable; an
-- operation returns the new one and the lines that it hands to `onLine`.
use postgres_pipeline_orches.Common.{ℕ, List, [], ◌∷◌, ◌++◌, ◌==◌, if◌then◌else◌}
use postgres_pipeline_orches.Common.Text.{Text}

abbrev pub newline : ℕ
newline = 10

abbrev pub carriage_return : ℕ
carriage_return = 13

-- The part before a match of `\r?\n`, which takes one carriage return with it.
abbrev pub strip_cr : Text → Text
strip_cr [] = []
strip_cr (c ∷ []) = if c == carriage_return then [] else c ∷ []
strip_cr (c ∷ d ∷ s) = c ∷ strip_cr (d ∷ s)

-- `split(/\r?\n/)` of a text whose first part begins with `cur`.
unfoldable pub split_from : Text → Text → List Text
split_from cur [] = cur ∷ []
split_from cur (c ∷ s) =
    let ended = strip_cr cur ∷ split_from [] s in
    let longer = split_from (cur ++ c ∷ []) s in if c == newline then ended else longer

unfoldable pub split_lines : Text → List Text
unfolding split_from
split_lines s = split_from [] s

-- `parts.pop() ?? ''`: the last part, and the parts before it.
unfoldable pub pop : List Text → Text × List Text
pop [] = ([], [])
pop (p ∷ []) = (p, [])
pop (p ∷ q ∷ ps) = let (r, rest) = pop (q ∷ ps) in (r, p ∷ rest)

-- `write(chunk)`
unfoldable pub write : Text → Text → Text × List Text
unfolding split_lines pop
write buffer chunk = pop (split_lines (buffer ++ chunk))

-- `flush()`: the lines; the buffer is empty after it.
unfoldable pub flush : Text → List Text
flush [] = []
flush (c ∷ s) = (c ∷ s) ∷ []

-- All the lines of a stream: a `write` for each chunk, and the `flush` at the end.
unfoldable pub stream_lines : Text → List Text → List Text
unfolding write flush
stream_lines buffer [] = flush buffer
stream_lines buffer (chunk ∷ chunks) =
    let (buffer', lines) = write buffer chunk in lines ++ stream_lines buffer' chunks

-- The bytes of a pipe, a chunk at a time. `decode` is `buf.toString('utf8')`, which reads each chunk by
-- itself.
unfoldable pub stream_output : (List ℕ → Text) → Text → List (List ℕ) → List Text
unfolding write flush
stream_output decode buffer [] = flush buffer
stream_output decode buffer (buf ∷ bufs) =
    let (buffer', lines) = write buffer (decode buf) in lines ++ stream_output decode buffer' bufs
