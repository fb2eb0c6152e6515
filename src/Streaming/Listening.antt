-- ===== src/Streaming/Listening.antt =====
-- The restarts of the listening client.
use postgres_pipeline_orches.Common.{
  ℕ, ◌≡◌, refl, ap, inl, inr, none, Option-cases, Bool-cases, ◌∙◌, Option, some, List, [], ◌∷◌,
  ◌++◌, true, false, arith, ◌==◌,
}
use postgres_pipeline_orches.Common.Text.{Text, text_eq}
use postgres_pipeline_orches.Streaming.Logs.{LogStreamEvent, Message, log_channel}
use postgres_pipeline_orches.Streaming.Service.{
  LogStreamService, emit_parsed, notified, destroyed, destroy, errored, ended, fired, step, steps,
  start_listening, restart, on_notification, handle_all, notify, notify_all, on_module_init,
}

-- A lost client that tells so by 'error' and by 'end' leaves no client and two timers; both fire, so
-- two clients listen, and every notification that JSON can read is passed on twice.
pub doubled :
    (parse : Text → Option LogStreamEvent) (c a b : ℕ) (u : ℕ) (text : Text) (e : LogStreamEvent)
    (before : List LogStreamEvent)
    → parse (u ∷ text) ≡ some e
    → let s = steps parse (errored c ∷ ended c ∷ fired a ∷ fired b ∷ []) (record {
      pool = true;
      open_pools = 1;
      listen_client = some c;
      listening = c ∷ [];
      timers = 0;
      emitted = before;
      completed = false;
    }) in
      (s.listening ≡ b ∷ a ∷ [])
      × ((step parse
            (notified (record { channel = log_channel; payload = some (u ∷ text) }))
            s).emitted
          ≡ (before ++ e ∷ []) ++ e ∷ [])
unfolding steps step restart start_listening notify handle_all on_notification
doubled parse c a b u text e before p =
    let t : (c == c) ≡ true = ground arith in rw t (refl, rw p refl)

muted_emit :
    (parse : Text → Option LogStreamEvent) (e : Option LogStreamEvent) (s : LogStreamService)
    → s.completed ≡ true
    → emit_parsed parse e s ≡ s
muted_emit parse none s h = refl
muted_emit parse (some e) s h = rw h refl

-- A completed subject passes nothing on.
muted :
    (parse : Text → Option LogStreamEvent) (m : Message) (s : LogStreamService)
    → s.completed ≡ true
    → on_notification parse m s ≡ s
unfolding on_notification
muted parse m s h = elim (Option-cases m.payload) [
  | inl e ↦ rw e refl
  | inr ([], e) ↦ rw e refl
  | inr (u ∷ us, e) ↦ elim (Bool-cases (text_eq m.channel log_channel)) [
    | inl t ↦ rw (e, t) (muted_emit parse (parse (u ∷ us)) s h)
    | inr t ↦ rw (e, t) refl
  ]
]

-- A service with one listening client and its pool: the end of the module lets the client go, ends the
-- pool and completes the subject; where the client then tells of its end, the timer of the restart
-- opens a second pool and a client that listens, and passes nothing on.
pub outlives :
    (parse : Text → Option LogStreamEvent) (c a : ℕ) (m : Message) (before : List LogStreamEvent)
    → let s = steps parse (destroyed ∷ ended c ∷ fired a ∷ []) (record {
      pool = true;
      open_pools = 1;
      listen_client = some c;
      listening = c ∷ [];
      timers = 0;
      emitted = before;
      completed = false;
    }) in
      (s.pool ≡ true)
      × (s.open_pools ≡ 1)
      × (s.listening ≡ a ∷ [])
      × ((notify parse m s).emitted ≡ before)
unfolding steps step restart start_listening destroy notify handle_all
outlives parse c a m before =
    let t : (c == c) ≡ true = ground arith in
    rw t (refl, refl, refl, ap (λ (x : LogStreamService). x.emitted) (muted parse m _ refl))

-- A service that does not start to listen passes on nothing.
pub silent :
    (parse : Text → Option LogStreamEvent) (c : ℕ) (ms : List Message) (s : LogStreamService)
    → s.listening ≡ []
    → notify_all parse ms (on_module_init false c s) ≡ s
unfolding notify_all notify handle_all on_module_init
silent parse c [] s h = refl
silent parse c (m ∷ ms) s h =
    ap (λ cs. notify_all parse ms (handle_all parse cs m s)) h ∙ silent parse c ms s h
