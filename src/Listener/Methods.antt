-- ===== src/Listener/Methods.antt =====
-- The methods of the listener of pqconn/listener.go from start to end, over the listener, the
-- state of `pq.Listener` and what has been called and logged.
use go_sqldb.Prelude.{
  ℕ, Bool, true, false, List, [], ◌∷◌, ◌++◌, Option, none, some, Bytes, if◌then◌else◌,
}
use go_sqldb.Listener.Callbacks.{Call}
use go_sqldb.Listener.{
  ConnError, channel_already_open, other_error, PqListener, ListenerError, listener_closed,
  listen_failed, no_listener_active, unlisten_failed, ping_failed, resubscribe_failed, event_error,
  Entry, logged, Listener, Request, register, take_channel, take_all, receivers,
  subscribed_channels, notify_all, unlisten_all,
}

pub record State (P : Type 0) : Type 0 where
  pub listener : Listener
  pub conn : P
  pub log : List Entry

-- `err != nil && err != pq.ErrChannelAlreadyOpen`
abbrev pub refused : Option ConnError → Option ConnError
refused none = none
refused (some channel_already_open) = none
refused (some (other_error e)) = some (other_error e)

pub data ListenerEvent : Type 0 where
  connected disconnected reconnected connection_attempt_failed : ListenerEvent
  unknown : ℕ → ListenerEvent

-- What `select` in `listen` receives: the closed channel `stop`, a value of `Notify`, which may be
-- nil, the end of `Notify`, or a tick of the ping timer.
pub data Signal : Type 0 where
  stop : Signal
  notification : Option (Bytes × Bytes) → Signal
  notify_closed : Signal
  tick : Signal

abbrev pub append_log : {P : Type 0} → List Entry → State P → State P
append_log entries s = record s { log = s.log ++ entries }

abbrev is_reconnected : ListenerEvent → Bool
is_reconnected reconnected = true
is_reconnected _ = false

module _ {P : Type 0} (pq : PqListener P) where
  -- `listenOnChannel` up to the lock: the test of `stop`, and LISTEN.
  unfoldable pub begin_listen : Bytes → State P → Option ListenerError × State P
  begin_listen channel s =
      if s.listener.stopped
      then (some (listener_closed channel), s)
      else (let (e, conn) = pq.listen channel s.conn in
          (
            elim (refused e) [ none ↦ none | some x ↦ some (listen_failed channel x) ],
            record s { conn = conn },
          ))

  unfoldable pub listen_on_channel : Request → State P → Option ListenerError × State P
  listen_on_channel req s =
      let (e, t) = begin_listen req.channel s in
      elim e [
        | some x ↦ (some x, t)
        | none ↦ (none, record t { listener = register req t.listener })
      ]

  -- `unlistenChannel` up to the lock, on a listener that is not nil.
  unfoldable pub begin_unlisten : Bytes → State P → Option ListenerError × State P
  begin_unlisten channel s =
      if s.listener.stopped
      then (some (no_listener_active channel), s)
      else (let (e, conn) = pq.unlisten channel s.conn in
          (
            elim e [ none ↦ none | some x ↦ some (unlisten_failed channel x) ],
            record s { conn = conn },
          ))

  -- The part of `stopOnce` before the lock: the channel `stop` and the connection are closed.
  unfoldable pub begin_close : State P → State P
  begin_close s = record s {
    listener = record s.listener { stopped = true };
    conn = pq.close s.conn;
  }

  -- The last loop of `resubscribeChannels`.
  unfoldable pub resubscribe_each : List Bytes → State P → State P
  resubscribe_each [] s = s
  resubscribe_each (channel ∷ channels) s =
      let (e, conn) = pq.listen channel s.conn in
      let t = record s { conn = conn } in
      resubscribe_each channels (elim (refused e) [
        | none ↦ t
        | some x ↦ append_log (logged (resubscribe_failed channel x) ∷ []) t
      ])

  unfoldable pub resubscribe_channels : State P → State P
  resubscribe_channels s =
      if s.listener.stopped then s else resubscribe_each (subscribed_channels s.listener) s

  -- `handleConnectionEvent`, less the line that a configured event logger gets for an event
  -- without an error.
  unfoldable pub handle_connection_event : ListenerEvent → Option ℕ → State P → State P
  handle_connection_event event e s =
      let t : State P = elim e [ none ↦ s | some x ↦ append_log (logged (event_error x) ∷ []) s ] in
      if is_reconnected event then resubscribe_channels t else t

module _ {P : Type 0} (panics : Call → Bool) where
  -- The goroutines of `notify` are not waited for; here they run at once.
  unfoldable pub notify : Bytes → Bytes → State P → State P
  notify channel payload s = append_log (notify_all panics payload (receivers channel s.listener)) s

module _ {P : Type 0} (pq : PqListener P) (panics : Call → Bool) where
  unfoldable pub unlisten_channel : Bytes → State P → Option ListenerError × State P
  unlisten_channel channel s =
      let (e, t) = begin_unlisten pq channel s in
      elim e [
        | some x ↦ (some x, t)
        | none ↦
            let (calls, l) = take_channel channel t.listener in
            (none, append_log (unlisten_all panics calls) (record t { listener = l }))
      ]

  unfoldable pub close : State P → State P
  close s =
      if s.listener.stopped
      then s
      else (let t = begin_close pq s in
          let (calls, l) = take_all t.listener in
          append_log (unlisten_all panics calls) (record t { listener = l }))

  -- One round of `listen`, and whether it returns.
  unfoldable pub listen_round : Signal → State P → Bool × State P
  listen_round stop s = (true, s)
  listen_round notify_closed s = (true, close s)
  listen_round (notification none) s = (false, s)
  listen_round (notification (some (channel, payload))) s = (false, notify panics channel payload s)
  listen_round tick s =
      let (e, conn) = pq.ping s.conn in
      let t = record s { conn = conn } in
      (false, elim e [ none ↦ t | some x ↦ append_log (logged (ping_failed x) ∷ []) t ])

  -- The loop over the signals in the order in which `select` takes them; it returns or waits for
  -- more.
  unfoldable pub listen : List Signal → State P → Bool × State P
  listen [] s = (false, s)
  listen (sig ∷ sigs) s =
      let (done, t) = listen_round sig s in
      let rest = listen sigs t in if done then (true, t) else rest
