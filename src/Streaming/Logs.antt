-- ===== src/Streaming/Logs.antt =====
-- `appendLog`, and the trigger `job_logs_notify` that its INSERT fires. Here a text is the list of its
-- characters, as PostgreSQL counts them.
use postgres_pipeline_orches.Common.{
  ℕ, zero, suc, ◌+◌, Bool, not, Option, none, some, List, [], ◌∷◌, ◌++◌, ltb, leb, if◌then◌else◌,
  length,
}
use postgres_pipeline_orches.Common.Text.{Text, codes}

-- `src/database/entities/job-log.entity.ts`
pub record JobLog : Type 0 where
  pub id : ℕ
  pub job_id : ℕ
  pub log_line : Text
  pub log_level : Text
  pub timestamp : ℕ

pub record LogStreamEvent : Type 0 where
  pub job_id : ℕ
  pub log_line : Text
  pub log_level : Text
  pub timestamp : ℕ
  pub id : Option ℕ

pub record Message : Type 0 where
  pub channel : Text
  pub payload : Option Text

abbrev pub log_channel : Text
log_channel = codes "job_logs"

abbrev pub line_limit : ℕ
line_limit = 7000

-- PostgreSQL refuses a payload of 8000 bytes or more.
abbrev pub payload_limit : ℕ
payload_limit = 8000

-- `left(s, n)`
unfoldable pub take : ℕ → Text → Text
take zero s = []
take (suc n) [] = []
take (suc n) (c ∷ s) = c ∷ take n s

-- `line_trunc`
unfoldable pub cut_line : Text → Text
unfolding take
cut_line line =
    let line_trunc = take line_limit line in
    if ltb line_limit (length line) then line_trunc ++ codes "…" else line_trunc

-- The bytes of a character, and of a text, in UTF-8.
abbrev pub char_size : ℕ → ℕ
char_size c = if ltb c 128 then 1 else if ltb c 2048 then 2 else if ltb c 65536 then 3 else 4

unfoldable pub octet_length : Text → ℕ
octet_length [] = 0
octet_length (c ∷ s) = char_size c + octet_length s

-- `@Column({ length: 20, default: 'info' })`
abbrev pub level_limit : ℕ
level_limit = 20

-- The event of a row. `log_level` is a column that is never null.
abbrev pub event_of : JobLog → LogStreamEvent
event_of l = record {
  job_id = l.job_id;
  log_line = cut_line l.log_line;
  log_level = l.log_level;
  timestamp = l.timestamp;
  id = some l.id;
}

-- The table, and the notifications that were sent, in their order.
pub record LogTable : Type 0 where
  pub rows : List JobLog
  pub sent : List Message

-- `{ id: '' }`, the id of the row, or an INSERT that throws.
pub data Appended : Type 0 where
  skipped refused : Appended
  stored : (id : ℕ) → Appended

-- `to_json` is the text of `json_build_object`, and `known` tells the ids in `jobs`, to which the
-- column `job_id` refers.
module _ (to_json : LogStreamEvent → Text) (known : ℕ → Bool) where
  abbrev pub message_of : JobLog → Message
  message_of l = record { channel = log_channel; payload = some (to_json (event_of l)) }

  -- The INSERT, in one transaction with its trigger.
  unfoldable pub insert_log : JobLog → LogTable → LogTable × Appended
  unfolding octet_length
  insert_log l logs =
      if not (known l.job_id)
      then (logs, refused)
      else if ltb level_limit (length l.log_level)
      then (logs, refused)
      else if leb payload_limit (octet_length (to_json (event_of l)))
      then (logs, refused)
      else (
        record { rows = logs.rows ++ l ∷ []; sent = logs.sent ++ message_of l ∷ [] },
        stored l.id,
      )

  -- `id` and `now` are the defaults of their columns; a job id that is null or empty is `none`.
  unfoldable pub append_log : ℕ → ℕ → Option ℕ → Text → Text → LogTable → LogTable × Appended
  unfolding insert_log
  append_log id now none log_line log_level logs = (logs, skipped)
  append_log id now (some job_id) log_line log_level logs =
      insert_log
        (record {
          id = id;
          job_id = job_id;
          log_line = log_line;
          log_level = log_level;
          timestamp = now;
        })
        logs
