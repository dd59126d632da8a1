-- ===== src/Tests/Notifications.antt =====
-- A listener on a `pq.Listener` that keeps the list of its channels.
use go_sqldb.Prelude.{
  ℕ, ◌≡◌, refl, Bool, true, false, List, [], ◌∷◌, ◌++◌, none, some, Bytes, codes, bytes_eq,
  if◌then◌else◌, ◌≤◌, ◌⊎◌,
}
use go_sqldb.Listener.Callbacks.{Call, times, callbacks_of, add_callback, calls_of}
use go_sqldb.Listener.{
  safe_notify_callback, safe_unlisten_callback, PqListener, channel_already_open, Request, notified,
  unlistened, new_listener, unlisten_all, safe_unlisten_callback, register, take_all,
  is_listening_on_channel, listener_closed, no_listener_active, notify_all, receivers,
}
use go_sqldb.Listener.Methods.{
  State, Signal, stop, notification, notify_closed, tick, listen, listen_on_channel, close,
  listen_round, begin_listen, begin_close, unlisten_channel, notify, resubscribe_channels,
}
use go_sqldb.Listener.Schedule.{
  World, start, Run, here, next, inner, listens, registers, InternalRun, idle, round, takes_all,
  calls_back, started_close, IsIdle, called, started_listen,
}
use go_sqldb.Listener.Conserved.{IsConserved, Run-IsConserved}
use go_sqldb.Listener.Drain.{steps_left, goroutines-end, CanStep}
use go_sqldb.Listener.Closed.{close-calls_exactly}
use go_sqldb.Listener.Stranded.{late_registration-never_called}
use go_sqldb.Listener.Behaviour.{listen-ends, close-final}

abbrev has : Bytes → List Bytes → Bool
has channel [] = false
has channel (c ∷ cs) = let rest = has channel cs in if bytes_eq c channel then true else rest

abbrev pub subscriptions : PqListener (List Bytes)
subscriptions = record {
  listen =
      λ channel p. if has channel p then (some channel_already_open, p) else (none, channel ∷ p);
  unlisten = λ channel p. (none, p);
  ping = λ p. (none, p);
  close = λ p. [];
}

abbrev pub panics : Call → Bool
panics c = false

abbrev pub jobs : Bytes
jobs = codes "jobs"

abbrev pub request : Request
request = record { channel = jobs; on_notify = some 1; on_unlisten = some 2 }

abbrev pub fresh : State (List Bytes)
fresh = record { listener = new_listener; conn = []; log = [] }

abbrev pub listening : State (List Bytes)
listening = (listen_on_channel subscriptions request fresh).1

notified_log :
    (listen subscriptions panics
      (notification (some (jobs, codes "x")) ∷ tick ∷ notification none ∷ notify_closed ∷ stop ∷ [])
      listening).1.log
    ≡ notified (jobs, 1) (codes "x") ∷ unlistened (jobs, 2) ∷ []
unfolding listen listen_on_channel begin_listen register add_callback listen_round notify notify_all
    receivers callbacks_of safe_notify_callback close take_all calls_of unlisten_all
    safe_unlisten_callback bytes_eq begin_close
notified_log = refl

abbrev pub waiting : World (List Bytes)
waiting = record (start []) {
  state = record fresh { conn = jobs ∷ [] };
  registering = request ∷ [];
}

-- The callbacks of the request are registered.
abbrev pub registered : World (List Bytes)
registered = record (start []) {
  state = record {
    listener = record {
      stopped = false;
      notify_callbacks = (jobs, 1 ∷ []) ∷ [];
      unlisten_callbacks = (jobs, 2 ∷ []) ∷ [];
    };
    conn = jobs ∷ [];
    log = [];
  };
  registered = (jobs, 2) ∷ [];
}

abbrev pub closed : World (List Bytes)
closed = record registered {
  state = record {
    listener = record { stopped = true; notify_callbacks = []; unlisten_callbacks = [] };
    conn = [];
    log = unlistened (jobs, 2) ∷ [];
  };
}

abbrev pub closing : World (List Bytes)
closing = record closed {
  state = record closed.state { log = [] };
  unlisten_calls = (jobs, 2) ∷ [];
}

registered-Run : Run subscriptions panics (start []) registered
unfolding started_listen begin_listen register add_callback
registered-Run =
    next {u = waiting} (next here (listens request refl))
      (inner (registers request [] [] refl refl))

closing-InternalRun :
    InternalRun subscriptions panics 2 (started_close subscriptions registered) closed
unfolding started_close begin_close take_all calls_of safe_unlisten_callback
closing-InternalRun =
    round {n = 1} {u = closing} (takes_all refl refl)
      (round {n = 0} (calls_back (jobs, 2) [] [] refl refl) idle)

Run-IsConserved_example : IsConserved registered
Run-IsConserved_example = Run-IsConserved subscriptions panics [] registered-Run

close-calls_exactly_example :
    times (jobs, 2) (called closed.state.log) ≡ times (jobs, 2) registered.registered
close-calls_exactly_example =
    close-calls_exactly subscriptions panics [] registered registered-Run refl refl 2 closed
      closing-InternalRun (refl, refl, refl, refl, refl) (jobs, 2)

goroutines-end_example :
    ((n : ℕ) (v : World (List Bytes))
      → InternalRun subscriptions panics n waiting v
      → n ≤ steps_left waiting)
    × ((n : ℕ) (v : World (List Bytes))
        → InternalRun subscriptions panics n waiting v
        → IsIdle v ⊎ CanStep subscriptions panics v)
    × ((n : ℕ) × (v : World (List Bytes)) × InternalRun subscriptions panics n waiting v × IsIdle v)
goroutines-end_example = goroutines-end subscriptions panics waiting

late_registration-never_called_example :
    (w : World (List Bytes)) × Run subscriptions panics (start []) w
    × IsIdle w
    × (w.state.listener.stopped ≡ true)
    × (times (jobs, 2) w.registered ≡ 1)
    × ((v : World (List Bytes))
        → Run subscriptions panics w v
        → times (jobs, 2) (called v.state.log) ≡ 0)
late_registration-never_called_example =
    late_registration-never_called subscriptions panics [] request 2 refl refl

abbrev log_then : List Signal
log_then = tick ∷ notification (some (jobs, codes "x")) ∷ []

listen-ends_example :
    ((listen subscriptions panics log_then listening).0 ≡ false)
    × (listen subscriptions panics (log_then ++ notify_closed ∷ tick ∷ []) listening ≡ (
      true,
      (listen_round subscriptions panics notify_closed
          (listen subscriptions panics log_then listening).1).1,
    ))
listen-ends_example =
    listen-ends subscriptions panics log_then notify_closed (tick ∷ []) listening (refl, (refl, tt))
      refl

close-final_example :
    let t = close subscriptions panics registered.state in
    (t.conn ≡ [])
    × (t.log ≡ unlistened (jobs, 2) ∷ [])
    × (close subscriptions panics t ≡ t)
    × ((req : Request)
        → listen_on_channel subscriptions req t ≡ (some (listener_closed req.channel), t))
    × ((channel : Bytes)
        → unlisten_channel subscriptions panics channel t ≡ (some (no_listener_active channel), t))
    × ((channel payload : Bytes) → notify panics channel payload t ≡ t)
    × (resubscribe_channels subscriptions t ≡ t)
    × ((channel : Bytes) → is_listening_on_channel (some t.listener) channel ≡ false)
unfolding unlisten_all safe_unlisten_callback calls_of
close-final_example = close-final subscriptions panics registered.state refl
