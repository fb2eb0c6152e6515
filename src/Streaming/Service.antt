-- ===== src/Streaming/Service.antt =====
-- The listening client of `LogStreamService`, and the subject whose events the streams pass on.
use postgres_pipeline_orches.Common.{
  ℕ, zero, suc, ◌+◌, ◌-◌, Bool, true, false, not, Option, none, some, List, [], ◌∷◌, ◌++◌, ◌==◌,
  if◌then◌else◌, select, map,
}
use postgres_pipeline_orches.Common.Text.{Text, text_eq}
use postgres_pipeline_orches.Streaming.Logs.{LogStreamEvent, Message, log_channel}

-- `pool` tells whether the field is set, and `open_pools` counts the pools that are not ended.
-- `listening` has the clients whose LISTEN is in force, `timers` the restarts that are under way,
-- and `emitted` what the subject has passed on, in its order.
pub record LogStreamService : Type 0 where
  pub pool : Bool
  pub open_pools : ℕ
  pub listen_client : Option ℕ
  pub listening : List ℕ
  pub timers : ℕ
  pub emitted : List LogStreamEvent
  pub completed : Bool

abbrev pub get_pool : LogStreamService → LogStreamService
get_pool s = record s {
  pool = true;
  open_pools = if s.pool then s.open_pools else s.open_pools + 1;
}

-- `startListening` on the client that `pool.connect()` gives.
unfoldable pub start_listening : ℕ → LogStreamService → LogStreamService
start_listening client s = record (get_pool s) {
  listen_client = some client;
  listening = client ∷ s.listening;
}

-- `onModuleInit`: `sync` is `shouldRunTriggerDdl()`, on which the trigger and the listening depend.
unfoldable pub on_module_init : Bool → ℕ → LogStreamService → LogStreamService
unfolding start_listening
on_module_init sync client s = if sync then start_listening client s else s

-- `restart`, the handler of 'error' and of 'end': it lets the client go, and sets a timer.
unfoldable pub restart : LogStreamService → LogStreamService
restart s = record s { listen_client = none; timers = s.timers + 1 }

-- The connection of a client is lost.
abbrev pub drop_client : ℕ → LogStreamService → LogStreamService
drop_client client s = record s { listening = select (λ c. not (c == client)) s.listening }

abbrev pub emit : LogStreamEvent → LogStreamService → LogStreamService
emit e s = if s.completed then s else record s { emitted = s.emitted ++ e ∷ [] }

-- The handler of 'notification'; `parse` is JSON.parse, `none` where it throws.
module _ (parse : Text → Option LogStreamEvent) where
  abbrev pub emit_parsed : Option LogStreamEvent → LogStreamService → LogStreamService
  emit_parsed none s = s
  emit_parsed (some e) s = emit e s

  unfoldable pub on_notification : Message → LogStreamService → LogStreamService
  on_notification m s = elim m.payload [
    | none ↦ s
    | some [] ↦ s
    | some (c ∷ cs) ↦ if text_eq m.channel log_channel then emit_parsed (parse (c ∷ cs)) s else s
  ]

  -- Every client that listens has the handler.
  unfoldable pub handle_all : List ℕ → Message → LogStreamService → LogStreamService
  unfolding on_notification
  handle_all [] m s = s
  handle_all (c ∷ cs) m s = handle_all cs m (on_notification m s)

  unfoldable pub notify : Message → LogStreamService → LogStreamService
  unfolding handle_all
  notify m s = handle_all s.listening m s

  unfoldable pub notify_all : List Message → LogStreamService → LogStreamService
  notify_all [] s = s
  notify_all (m ∷ ms) s = notify_all ms (notify m s)

  -- What happens to the service: a notification, the events of a client, a timer that fires and gets
  -- a client, and the end of the module.
  pub data ServiceEvent : Type 0 where
    notified : Message → ServiceEvent
    errored : (client : ℕ) → ServiceEvent
    ended : (client : ℕ) → ServiceEvent
    fired : (client : ℕ) → ServiceEvent
    destroyed : ServiceEvent

  abbrev pub let_go : Option ℕ → LogStreamService → LogStreamService
  let_go none s = s
  let_go (some client) s = record (drop_client client s) { listen_client = none }

  -- `pool.end()`
  abbrev pub end_pool : LogStreamService → LogStreamService
  end_pool s = record s {
    pool = false;
    open_pools = if s.pool then s.open_pools - 1 else s.open_pools;
  }

  -- `onModuleDestroy`
  unfoldable pub destroy : LogStreamService → LogStreamService
  destroy s = record (end_pool (let_go s.listen_client s)) { completed = true }

  unfoldable pub step : ServiceEvent → LogStreamService → LogStreamService
  unfolding notify restart start_listening destroy
  step (notified m) s = notify m s
  step (errored client) s = restart (drop_client client s)
  step (ended client) s = restart (drop_client client s)
  step (fired client) s = start_listening client (record s { timers = s.timers - 1 })
  step destroyed s = destroy s

  unfoldable pub steps : List ServiceEvent → LogStreamService → LogStreamService
  steps [] s = s
  steps (e ∷ es) s = steps es (step e s)

-- `getLogStreamForJob`: what its observer has seen of the subject's events.
unfoldable pub log_stream_for_job : ℕ → List LogStreamEvent → List LogStreamEvent
log_stream_for_job job_id = select (λ e. e.job_id == job_id)

-- `src/streaming/sse.controller.ts`: what a client is sent.
pub record MessageEvent : Type 0 where
  pub sent : LogStreamEvent

abbrev pub to_message : LogStreamEvent → MessageEvent
to_message ev = record { sent = ev }

-- What is left of the subject's events for an observer that subscribes when it has passed on the first
-- `since` of them: the subject is hot, and replays none.
unfoldable pub events_since : ℕ → List LogStreamEvent → List LogStreamEvent
events_since zero events = events
events_since (suc since) [] = []
events_since (suc since) (e ∷ events) = events_since since events

unfoldable pub stream_job_logs : ℕ → ℕ → List LogStreamEvent → List MessageEvent
unfolding log_stream_for_job events_since
stream_job_logs job_id since events =
    map to_message (log_stream_for_job job_id (events_since since events))

unfoldable pub stream_all_logs : ℕ → List LogStreamEvent → List MessageEvent
unfolding events_since
stream_all_logs since events = map to_message (events_since since events)
