-- ===== src/Listener/Schedule.antt =====
-- The methods of the listener of pqconn/listener.go, run by goroutines that take turns: between two
-- locked parts of a method, and before a started callback runs, any other goroutine may step.
-- A step is coarser than the source in three places where no lock is held: the test of `stop` and the
-- call of `pq.Listener` behind it in `listenOnChannel` and `unlistenChannel`, the closing of `stop`
-- and of the connection in `close`, and the whole of `resubscribeChannels` are one step each.
use go_sqldb.Prelude.{
  ℕ, Bool, true, false, List, [], ◌∷◌, ◌++◌, map, Option, none, some, Bytes, if◌then◌else◌, ◌≡◌,
  ◌+◌,
}
use go_sqldb.Listener.Callbacks.{Call}
use go_sqldb.Listener.{
  PqListener, Entry, notified, unlistened, logged, Request, new_listener, register, take_channel,
  take_all, receivers, safe_notify_callback, safe_unlisten_callback,
}
use go_sqldb.Listener.Methods.{
  State, append_log, begin_listen, begin_unlisten, begin_close, ListenerEvent,
  handle_connection_event, listen_round, tick,
}

-- The state, with what every goroutine is about to do.
pub record World (P : Type 0) : Type 0 where
  pub state : State P
  -- calls of `listenOnChannel` that have subscribed and wait for the lock
  pub registering : List Request
  -- calls of `unlistenChannel` that have unsubscribed and wait for the lock
  pub unlistening : List Bytes
  -- the call of `close` inside `stopOnce` waits for the lock
  pub closing : Bool
  -- the started goroutines of `safeUnlistenCallback` and of `safeNotifyCallback`
  pub unlisten_calls : List Call
  pub notify_calls : List (Bytes × Call)
  -- the unlisten callbacks that were ever registered
  pub registered : List Call

abbrev pub start : {P : Type 0} → P → World P
start p = record {
  state = record { listener = new_listener; conn = p; log = [] };
  registering = [];
  unlistening = [];
  closing = false;
  unlisten_calls = [];
  notify_calls = [];
  registered = [];
}

abbrev pub requested : Request → List Call
requested req = elim req.on_unlisten [ none ↦ [] | some callback ↦ (req.channel, callback) ∷ [] ]

module _ {P : Type 0} (pq : PqListener P) where
  unfoldable pub started_listen : Request → World P → World P
  started_listen req w =
      let (e, s) = begin_listen pq req.channel w.state in
      elim e [
        | none ↦ record w { state = s; registering = w.registering ++ req ∷ [] }
        | some x ↦ record w { state = s }
      ]

  unfoldable pub started_unlisten : Bytes → World P → World P
  started_unlisten channel w =
      let (e, s) = begin_unlisten pq channel w.state in
      elim e [
        | none ↦ record w { state = s; unlistening = w.unlistening ++ channel ∷ [] }
        | some x ↦ record w { state = s }
      ]

  -- Only the first call of `close` gets past `stopOnce`.
  unfoldable pub started_close : World P → World P
  started_close w =
      if w.state.listener.stopped
      then w
      else record w { state = begin_close pq w.state; closing = true }

  unfoldable pub started_notify : Bytes → Bytes → World P → World P
  started_notify channel payload w = record w {
    notify_calls =
        w.notify_calls ++ map (λ call. (payload, call)) (receivers channel w.state.listener);
  }

module _ {P : Type 0} (pq : PqListener P) (panics : Call → Bool) where
  -- The end of a goroutine's method, which has no argument left to choose.
  pub data Internal (w v : World P) : Type 0 where
    registers :
        (req : Request) (before after : List Request)
        → w.registering ≡ before ++ req ∷ after
        → v ≡ record w {
          state = record w.state { listener = register req w.state.listener };
          registering = before ++ after;
          registered = w.registered ++ requested req;
        }
        → Internal w v
    takes_channel :
        (channel : Bytes) (before after : List Bytes)
        → w.unlistening ≡ before ++ channel ∷ after
        → v ≡ record w {
          state = record w.state { listener = (take_channel channel w.state.listener).1 };
          unlistening = before ++ after;
          unlisten_calls = w.unlisten_calls ++ (take_channel channel w.state.listener).0;
        }
        → Internal w v
    takes_all :
        w.closing ≡ true
        → v ≡ record w {
          state = record w.state { listener = (take_all w.state.listener).1 };
          closing = false;
          unlisten_calls = w.unlisten_calls ++ (take_all w.state.listener).0;
        }
        → Internal w v
    calls_back :
        (call : Call) (before after : List Call)
        → w.unlisten_calls ≡ before ++ call ∷ after
        → v ≡ record w {
          state = append_log (safe_unlisten_callback panics call) w.state;
          unlisten_calls = before ++ after;
        }
        → Internal w v
    calls_notified :
        (payload : Bytes) (call : Call) (before after : List (Bytes × Call))
        → w.notify_calls ≡ before ++ (payload, call) ∷ after
        → v ≡ record w {
          state = append_log (safe_notify_callback panics payload call) w.state;
          notify_calls = before ++ after;
        }
        → Internal w v

  -- A goroutine ends a method, or a caller, the loop or `pq.Listener` starts one.
  pub data Step (w v : World P) : Type 0 where
    inner : Internal w v → Step w v
    listens : (req : Request) → v ≡ started_listen pq req w → Step w v
    unlistens : (channel : Bytes) → v ≡ started_unlisten pq channel w → Step w v
    closes : v ≡ started_close pq w → Step w v
    notifies : (channel payload : Bytes) → v ≡ started_notify pq channel payload w → Step w v
    pings : v ≡ record w { state = (listen_round pq panics tick w.state).1 } → Step w v
    connects :
        (event : ListenerEvent) (e : Option ℕ)
        → v ≡ record w { state = handle_connection_event pq event e w.state }
        → Step w v

  pub data Run (w : World P) : World P → Type 0 where
    here : Run w w
    next : {u v : World P} → Run w u → Step u v → Run w v

  -- A run in which no method is started.
  pub data InternalRun : ℕ → World P → World P → Type 0 where
    idle : {w : World P} → InternalRun 0 w w
    round : {n : ℕ} {w u v : World P} → Internal w u → InternalRun n u v → InternalRun (n + 1) w v

-- The calls of unlisten callbacks in a log.
abbrev pub called : List Entry → List Call
called [] = []
called (unlistened call ∷ log) = call ∷ called log
called (notified call payload ∷ log) = called log
called (logged e ∷ log) = called log

-- No goroutine has anything left to do.
abbrev pub IsIdle : {P : Type 0} → World P → Type 0
IsIdle w =
    (w.registering ≡ [])
    × (w.unlistening ≡ [])
    × (w.closing ≡ false)
    × (w.unlisten_calls ≡ [])
    × (w.notify_calls ≡ [])
