-- ===== src/Streaming/Delivery.antt =====
-- What the observer of a job's stream sees of the lines that were appended.
use postgres_pipeline_orches.Common.{
  ℕ, ◌≡◌, ◌≢◌, refl, sym, ap, ◌∙◌, inl, inr, Bool, true, false, Option, none, some, List, [], ◌∷◌,
  ◌++◌, map, arith, ltb, leb, length, ◌==◌, select, Bool-cases, append_assoc, append-nil,
}
use postgres_pipeline_orches.Common.Text.{Text}
use postgres_pipeline_orches.Streaming.Logs.{
  JobLog, LogStreamEvent, LogTable, payload_limit, level_limit, octet_length, log_channel, event_of,
  message_of, insert_log, append_log,
}
use postgres_pipeline_orches.Streaming.Service.{
  LogStreamService, emit, emit_parsed, on_notification, handle_all, notify, notify_all,
  log_stream_for_job, start_listening, on_module_init, to_message, events_since, stream_job_logs,
}

-- The arguments of a call of `appendLog`, and what the columns' defaults give.
pub record Append : Type 0 where
  pub id : ℕ
  pub now : ℕ
  pub job_id : Option ℕ
  pub line : Text
  pub level : Text

emit_open :
    (e : LogStreamEvent) (s : LogStreamService)
    → s.completed ≡ false
    → emit e s ≡ record s { emitted = s.emitted ++ e ∷ [] }
emit_open e s k = ground arith

module _ (to_json : LogStreamEvent → Text) (known : ℕ → Bool) where
  unfoldable pub append_all : List Append → LogTable → LogTable
  append_all [] logs = logs
  append_all (a ∷ rest) logs =
      append_all rest (append_log to_json known a.id a.now a.job_id a.line a.level logs).0

  -- Each row behind `old` has been sent on, in order.
  abbrev IsSent : List JobLog → LogTable → Type 0
  IsSent old logs =
      (rows : List JobLog) × (logs.rows ≡ old ++ rows)
      × (logs.sent ≡ map (message_of to_json known) rows)

  map-append :
      (ls ms : List JobLog)
      → map (message_of to_json known) (ls ++ ms)
        ≡ map (message_of to_json known) ls ++ map (message_of to_json known) ms
  map-append [] ms = refl
  map-append (l ∷ ls) ms = ap (λ r. message_of to_json known l ∷ r) (map-append ls ms)

  module _ (old : List JobLog) where
    stored-IsSent :
        (l : JobLog) (logs : LogTable)
        → IsSent old logs
        → IsSent old (record {
          rows = logs.rows ++ l ∷ [];
          sent = logs.sent ++ message_of to_json known l ∷ [];
        })
    stored-IsSent l logs (rows, r, m) = (
      rows ++ l ∷ [],
      ap (λ ls. ls ++ l ∷ []) r ∙ append_assoc old rows (l ∷ []),
      ap (λ ms. ms ++ message_of to_json known l ∷ []) m ∙ sym (map-append rows (l ∷ [])),
    )

    insert_log-IsSent :
        (l : JobLog) (logs : LogTable)
        → IsSent old logs
        → IsSent old (insert_log to_json known l logs).0
    unfolding insert_log
    insert_log-IsSent l logs h = elim (Bool-cases (known l.job_id)) [
      | inl k ↦ elim (Bool-cases (ltb level_limit (length l.log_level))) [
        | inl u ↦ rw (k, u) h
        | inr u ↦ elim (Bool-cases (leb payload_limit (octet_length (to_json (event_of l))))) [
          | inl t ↦ rw (k, u, t) h
          | inr t ↦ rw (k, u, t) (stored-IsSent l logs h)
        ]
      ]
      | inr k ↦ rw k h
    ]

    append_log-IsSent :
        (a : Append) (logs : LogTable)
        → IsSent old logs
        → (j : Option ℕ) → IsSent old (append_log to_json known a.id a.now j a.line a.level logs).0
    unfolding append_log
    append_log-IsSent a logs h none = h
    append_log-IsSent a logs h (some j) = insert_log-IsSent _ logs h

    append_all-IsSent :
        (rest : List Append) (logs : LogTable) → IsSent old logs → IsSent old (append_all rest logs)
    unfolding append_all
    append_all-IsSent [] logs h = h
    append_all-IsSent (a ∷ rest) logs h =
        append_all-IsSent rest _ (append_log-IsSent a logs h a.job_id)

  module _ (parse : Text → Option LogStreamEvent)
      (parse-to_json : (e : LogStreamEvent) → parse (to_json e) ≡ some e)
      (wordy : (e : LogStreamEvent) → to_json e ≢ []) where
    on_text :
        (t : Text) (s : LogStreamService)
        → t ≢ []
        → on_notification parse (record { channel = log_channel; payload = some t }) s
          ≡ emit_parsed parse (parse t) s
    unfolding on_notification
    on_text [] s h = absurd (h refl)
    on_text (c ∷ t) s h = refl

    -- One listening client hands on one event for each message.
    notify_lem :
        (l : JobLog) (c : ℕ) (s : LogStreamService)
        → s.listening ≡ c ∷ []
        → s.completed ≡ false
        → notify parse (message_of to_json known l) s
          ≡ record s { emitted = s.emitted ++ event_of l ∷ [] }
    unfolding notify handle_all
    notify_lem l c s h k =
        ap (λ cs. handle_all parse cs (message_of to_json known l) s) h
        ∙ on_text (to_json (event_of l)) s (wordy (event_of l))
        ∙ ap (λ e. emit_parsed parse e s) (parse-to_json (event_of l))
        ∙ emit_open (event_of l) s k

    notify_all_lem :
        (ls : List JobLog) (c : ℕ) (s : LogStreamService)
        → s.listening ≡ c ∷ []
        → s.completed ≡ false
        → notify_all parse (map (message_of to_json known) ls) s
          ≡ record s { emitted = s.emitted ++ map event_of ls }
    unfolding notify_all
    notify_all_lem [] c s h k = ap (λ es. record s { emitted = es }) (sym (append-nil s.emitted))
    notify_all_lem (l ∷ ls) c s h k =
        ap (notify_all parse (map (message_of to_json known) ls)) (notify_lem l c s h k)
        ∙ notify_all_lem ls c (record s { emitted = s.emitted ++ event_of l ∷ [] }) h k
        ∙ ap (λ es. record s { emitted = es })
            (append_assoc s.emitted (event_of l ∷ []) (map event_of ls))

    stream_of_rows :
        (job_id : ℕ) (ls : List JobLog)
        → log_stream_for_job job_id (map event_of ls)
          ≡ map event_of (select (λ l. l.job_id == job_id) ls)
    unfolding log_stream_for_job
    stream_of_rows job_id [] = refl
    stream_of_rows job_id (l ∷ ls) = elim (Bool-cases (l.job_id == job_id)) [
      | inl t ↦ rw t (ap (λ es. event_of l ∷ es) (stream_of_rows job_id ls))
      | inr t ↦ rw t (stream_of_rows job_id ls)
    ]

    events_since-append :
        (before more : List LogStreamEvent) → events_since (length before) (before ++ more) ≡ more
    unfolding events_since
    events_since-append [] more = refl
    events_since-append (e ∷ before) more = events_since-append before more

    -- Any calls of `appendLog` on empty tables, a service that listens with one client from the start and
    -- has passed on nothing, and a client that subscribes to a job behind the calls `early`, once their
    -- messages have arrived: when those of the calls `late` have arrived too, it has been sent one event
    -- for each line of the job that the calls `late` stored, cut as the trigger cuts it and in the order of
    -- the table, and none for an earlier line. Reading with JSON.parse inverts the writing of an event,
    -- whose text is not empty.
    pub stream_for_job_lem :
        (job_id c : ℕ) (early late : List Append) (s : LogStreamService)
        → s.listening ≡ []
        → s.completed ≡ false
        → s.emitted ≡ []
        → let logs = append_all early (record { rows = []; sent = [] }) in
          let before = notify_all parse logs.sent (on_module_init true c s) in
          let more = append_all late (record logs { sent = [] }) in
          let after = notify_all parse more.sent before in
          (rows : List JobLog) × (more.rows ≡ logs.rows ++ rows)
          × (stream_job_logs job_id (length before.emitted) after.emitted
              ≡ map to_message (map event_of (select (λ l. l.job_id == job_id) rows)))
    unfolding stream_job_logs on_module_init start_listening
    stream_for_job_lem job_id c early late s h k n =
        let no_logs : LogTable = record { rows = []; sent = [] } in
        let logs = append_all early no_logs in
        let (old, _, sent) = append_all-IsSent [] early no_logs ([], refl, refl) in
        let (rows, r, m) =
          append_all-IsSent logs.rows late (record logs { sent = [] })
            ([], sym (append-nil logs.rows), refl) in
        let t = start_listening c s in
        let first =
          ap (λ ms. notify_all parse ms t) sent ∙ notify_all_lem old c t (ap (λ cs. c ∷ cs) h) k in
        let before = notify_all parse logs.sent t in
        let second =
          ap (λ ms. notify_all parse ms before) m
          ∙ notify_all_lem rows c before
              (ap (λ (x : LogStreamService). x.listening) first ∙ ap (λ cs. c ∷ cs) h)
              (ap (λ (x : LogStreamService). x.completed) first ∙ k) in
        (
          rows,
          r,
          ap (λ (x : LogStreamService). stream_job_logs job_id (length before.emitted) x.emitted)
                second
              ∙ ap (λ es. map to_message (log_stream_for_job job_id es))
                  (events_since-append before.emitted (map event_of rows))
              ∙ ap (map to_message) (stream_of_rows job_id rows),
        )
