-- ===== src/Tests/Streams.antt =====
-- Log lines, their events, and the clients that listen.
use postgres_pipeline_orches.Common.{
  ℕ, zero, suc, ◌≡◌, refl, ap, Bool, true, false, Option, none, some, List, [], ◌∷◌, ◌++◌, map,
  arith, ◌==◌, select, length, All, ◌≤◌,
}
use postgres_pipeline_orches.Common.Text.{Text, codes}
use postgres_pipeline_orches.Streaming.{
  step, steps, notified, errored, ended, fired, log_channel, cut_line, JobLog, LogStreamEvent,
  LogTable, refused, event_of, append_log, LogStreamService, notify_all, on_module_init, to_message,
  stream_job_logs,
}
use postgres_pipeline_orches.Streaming.Listening.{doubled}
use postgres_pipeline_orches.Streaming.Payload.{IsWide, wide_line_refused}
use postgres_pipeline_orches.Streaming.Delivery.{Append, append_all, stream_for_job_lem}

-- A format for events: the numbers, the length of the level, the level, and the line.
abbrev id_code : Option ℕ → ℕ
id_code none = 0
id_code (some i) = suc i

abbrev code_id : ℕ → Option ℕ
code_id zero = none
code_id (suc i) = some i

abbrev pub written : LogStreamEvent → Text
written e = e.job_id ∷ e.timestamp ∷ id_code e.id ∷ length e.log_level ∷ (e.log_level ++ e.log_line)

abbrev cut_at : ℕ → Text → Text × Text
cut_at zero s = ([], s)
cut_at (suc n) [] = ([], [])
cut_at (suc n) (c ∷ s) = let (a, b) = cut_at n s in (c ∷ a, b)

abbrev pub read_event : Text → Option LogStreamEvent
read_event (j ∷ t ∷ i ∷ n ∷ s) =
    let (level, line) = cut_at n s in
    some (record { job_id = j; log_line = line; log_level = level; timestamp = t; id = code_id i })
read_event _ = none

cut_at_append : (a b : Text) → cut_at (length a) (a ++ b) ≡ (a, b)
cut_at_append [] b = refl
cut_at_append (c ∷ a) b = ap (λ (p : Text × Text). (c ∷ p.0, p.1)) (cut_at_append a b)

code_id_lem : (i : Option ℕ) → code_id (id_code i) ≡ i
code_id_lem none = refl
code_id_lem (some i) = refl

pub read_event-written : (e : LogStreamEvent) → read_event (written e) ≡ some e
read_event-written e = rw (cut_at_append e.log_level e.log_line, code_id_lem e.id) refl

abbrev pub known_job : ℕ → Bool
known_job i = i == 1

abbrev pub no_logs : LogTable
no_logs = record { rows = []; sent = [] }

abbrev hello : Text
hello = codes "hello"

abbrev info : Text
info = codes "info"

abbrev appends : List Append
appends =
    record { id = 1; now = 10; job_id = some 1; line = hello; level = info }
    ∷ record { id = 2; now = 11; job_id = none; line = hello; level = info }
    ∷ record { id = 3; now = 12; job_id = some 2; line = hello; level = info }
    ∷ record { id = 4; now = 13; job_id = some 1; line = codes "bye"; level = info }
    ∷ []

abbrev pub fresh_service : LogStreamService
fresh_service = record {
  pool = false;
  open_pools = 0;
  listen_client = none;
  listening = [];
  timers = 0;
  emitted = [];
  completed = false;
}

stream_for_job_lem_example :
    let logs = append_all written known_job appends no_logs in
    let before = notify_all read_event logs.sent (on_module_init true 5 fresh_service) in
    let more = append_all written known_job appends (record logs { sent = [] }) in
    let after = notify_all read_event more.sent before in
    (rows : List JobLog) × (more.rows ≡ logs.rows ++ rows)
    × (stream_job_logs 1 (length before.emitted) after.emitted
        ≡ map to_message (map event_of (select (λ l. l.job_id == 1) rows)))
stream_for_job_lem_example =
    stream_for_job_lem written known_job read_event read_event-written (λ e q. cc) 1 5 appends
      appends fresh_service refl refl refl

abbrev only_line : LogStreamEvent → Text
only_line e = e.log_line

abbrev hello_log : JobLog
hello_log = record { id = 1; job_id = 1; log_line = hello; log_level = info; timestamp = 10 }

-- A line of check marks.
abbrev marks : ℕ → Text
marks zero = []
marks (suc n) = 10003 ∷ marks n

marks-IsWide : (n : ℕ) → All IsWide (marks n)
marks-IsWide zero = tt
marks-IsWide (suc n) = (ground arith, marks-IsWide n)

length-marks : (n : ℕ) → length (marks n) ≡ n
length-marks zero = refl
length-marks (suc n) = ap suc (length-marks n)

many_marks : 2667 ≤ length (marks 3000)
many_marks = omega (arith, length-marks 3000)

wide_line_refused_example :
    append_log only_line known_job 1 10 (some 1) (marks 3000) info no_logs ≡ (no_logs, refused)
wide_line_refused_example =
    wide_line_refused only_line known_job 1 10 1 (marks 3000) info no_logs (λ e. omega arith)
      (marks-IsWide 3000) many_marks

doubled_example :
    let s = steps read_event (errored 5 ∷ ended 5 ∷ fired 6 ∷ fired 7 ∷ []) (record {
      pool = true;
      open_pools = 1;
      listen_client = some 5;
      listening = 5 ∷ [];
      timers = 0;
      emitted = [];
      completed = false;
    }) in
    (s.listening ≡ 7 ∷ 6 ∷ [])
    × ((step read_event
          (notified
            (record { channel = log_channel; payload = some (written (event_of hello_log)) }))
          s).emitted
        ≡ ([] ++ event_of hello_log ∷ []) ++ event_of hello_log ∷ [])
unfolding cut_line
doubled_example =
    doubled read_event 5 6 7 1 (10 ∷ 2 ∷ 4 ∷ (info ++ hello)) (event_of hello_log) [] refl
