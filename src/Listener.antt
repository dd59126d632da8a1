-- ===== src/Listener.antt =====
-- The LISTEN/NOTIFY listener of pqconn/listener.go: registering and dropping callbacks, dispatching
-- notifications, subscribing again after a reconnect, and closing. `pq.Listener` is a parameter.
-- A method's locked parts are the functions `register`, `take_channel` and `take_all`; a goroutine
-- that a method waits for runs in the place where the method starts it.
pub mod Callbacks
pub mod Methods
pub mod Schedule
pub mod Keeps
pub mod Conserved
pub mod Drain
pub mod Closed
pub mod Stranded
pub mod Behaviour
use go_sqldb.Prelude.{
  ℕ, Bool, true, false, not, ◌&&◌, ◌||◌, List, [], ◌∷◌, ◌++◌, map, Option, none, some, Bytes,
  if◌then◌else◌,
}
use Callbacks.{
  CallbackMap, Call, callbacks_of, add_callback, delete_channel, has_channel, calls_on, calls_of,
}

-- An error of `pq.Listener`; the package tells `pq.ErrChannelAlreadyOpen` from the others.
pub data ConnError : Type 0 where
  channel_already_open : ConnError
  other_error : ℕ → ConnError

-- What the code calls of `pq.Listener`, on a state of that package.
pub record PqListener (P : Type 0) : Type 0 where
  pub listen : Bytes → P → Option ConnError × P
  pub unlisten : Bytes → P → Option ConnError × P
  pub ping : P → Option ConnError × P
  pub close : P → P

-- The errors that the methods return or log.
pub data ListenerError : Type 0 where
  listener_closed : Bytes → ListenerError
  listen_failed : Bytes → ConnError → ListenerError
  no_listener_active : Bytes → ListenerError
  unlisten_failed : Bytes → ConnError → ListenerError
  ping_failed : ConnError → ListenerError
  resubscribe_failed : Bytes → ConnError → ListenerError
  event_error : ℕ → ListenerError
  callback_panicked : Call → ListenerError

-- What a run of the listener has done: its calls of callbacks, its lines of log.
pub data Entry : Type 0 where
  -- `callback(channel, payload)`
  notified : Call → Bytes → Entry
  -- `callback(channel)`
  unlistened : Call → Entry
  logged : ListenerError → Entry

-- The channel `stop` is closed or not; `stopOnce` is done exactly when it is closed.
pub record Listener : Type 0 where
  pub stopped : Bool
  pub notify_callbacks : CallbackMap
  pub unlisten_callbacks : CallbackMap

-- The arguments of `listenOnChannel`, a callback may be nil.
pub record Request : Type 0 where
  pub channel : Bytes
  pub on_notify : Option ℕ
  pub on_unlisten : Option ℕ

-- The listener as `getOrCreateListener` makes it.
abbrev pub new_listener : Listener
new_listener = record { stopped = false; notify_callbacks = []; unlisten_callbacks = [] }

abbrev add_optional : Bytes → Option ℕ → CallbackMap → CallbackMap
add_optional channel none m = m
add_optional channel (some callback) m = add_callback channel callback m

-- The locked end of `listenOnChannel`.
unfoldable pub register : Request → Listener → Listener
register req l = record l {
  notify_callbacks = add_optional req.channel req.on_notify l.notify_callbacks;
  unlisten_callbacks = add_optional req.channel req.on_unlisten l.unlisten_callbacks;
}

-- The locked part of `unlistenChannel`, with the callbacks to call.
unfoldable pub take_channel : Bytes → Listener → List Call × Listener
take_channel channel l = (
  calls_on channel (callbacks_of channel l.unlisten_callbacks),
  record l {
    notify_callbacks = delete_channel channel l.notify_callbacks;
    unlisten_callbacks = delete_channel channel l.unlisten_callbacks;
  },
)

-- The locked part of `close`.
unfoldable pub take_all : Listener → List Call × Listener
take_all l =
    (calls_of l.unlisten_callbacks, record l { notify_callbacks = []; unlisten_callbacks = [] })

abbrev is_empty : List ℕ → Bool
is_empty [] = true
is_empty (x ∷ xs) = false

unfoldable pub is_listening_on_channel : Option Listener → Bytes → Bool
is_listening_on_channel none channel = false
is_listening_on_channel (some l) channel =
    not (is_empty (callbacks_of channel l.notify_callbacks))
    || not (is_empty (callbacks_of channel l.unlisten_callbacks))

-- The callbacks that a notification is handed to.
unfoldable pub receivers : Bytes → Listener → List Call
receivers channel l = calls_on channel (callbacks_of channel l.notify_callbacks)

-- The keys of `notifyCallbacks`, then those of `unlistenCallbacks` that are not among them.
abbrev keys : CallbackMap → List Bytes
keys [] = []
keys ((key, callbacks) ∷ m) = key ∷ keys m

abbrev keys_outside : CallbackMap → CallbackMap → List Bytes
keys_outside notify [] = []
keys_outside notify ((key, callbacks) ∷ m) =
    let rest = keys_outside notify m in if has_channel key notify then rest else key ∷ rest

unfoldable pub subscribed_channels : Listener → List Bytes
subscribed_channels l =
    keys l.notify_callbacks ++ keys_outside l.notify_callbacks l.unlisten_callbacks

-- `safeNotifyCallback` and `safeUnlistenCallback`: a panic is recovered and logged.
module _ (panics : Call → Bool) where
  unfoldable pub safe_notify_callback : Bytes → Call → List Entry
  safe_notify_callback payload call =
      notified call payload ∷ (if panics call then logged (callback_panicked call) ∷ [] else [])

  unfoldable pub safe_unlisten_callback : Call → List Entry
  safe_unlisten_callback call =
      unlistened call ∷ (if panics call then logged (callback_panicked call) ∷ [] else [])

  unfoldable pub notify_all : Bytes → List Call → List Entry
  notify_all payload [] = []
  notify_all payload (call ∷ calls) = safe_notify_callback payload call ++ notify_all payload calls

  unfoldable pub unlisten_all : List Call → List Entry
  unlisten_all [] = []
  unlisten_all (call ∷ calls) = safe_unlisten_callback call ++ unlisten_all calls
