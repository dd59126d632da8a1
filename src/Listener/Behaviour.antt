-- ===== src/Listener/Behaviour.antt =====
-- What each method of the listener of pqconn/listener.go does on its branches, run alone.
use go_sqldb.Prelude.{
  ℕ, ◌≡◌, refl, ap, ◌∙◌, Bool, true, false, List, [], ◌∷◌, ◌++◌, Option, none, some, Bytes,
  bytes_eq, append-nil,
}
use go_sqldb.Listener.Callbacks.{
  CallbackMap, Call, callbacks_of, callbacks_of-delete, callbacks_of-delete_other, callbacks_of-add,
  calls_on, calls_of, callbacks_of-add_other,
}
use go_sqldb.Listener.{
  PqListener, ConnError, listener_closed, no_listener_active, listen_failed, Listener, Request,
  register, take_channel, take_all, receivers, is_listening_on_channel, unlisten_all, notify_all,
  add_optional,
}
use go_sqldb.Listener.Methods.{
  State, append_log, refused, begin_listen, begin_unlisten, begin_close, listen_on_channel,
  unlisten_channel, close, notify, Signal, listen_round, listen, resubscribe_channels, stop,
  notification, notify_closed, tick,
}

module _ {P : Type 0} (pq : PqListener P) (panics : Call → Bool) where
  abbrev pub is_last : Signal → Bool
  is_last stop = true
  is_last notify_closed = true
  is_last (notification n) = false
  is_last tick = false

  listen_round-last : (sig : Signal) (s : State P) → (listen_round pq panics sig s).0 ≡ is_last sig
  unfolding listen_round
  listen_round-last stop s = refl
  listen_round-last notify_closed s = refl
  listen_round-last (notification none) s = refl
  listen_round-last (notification (some (channel, payload))) s = refl
  listen_round-last tick s = refl

  abbrev pub NoneLast : List Signal → Type 0
  NoneLast [] = Unit
  NoneLast (sig ∷ sigs) = (is_last sig ≡ false) × NoneLast sigs

  -- The loop waits for more as long as neither `stop` nor the end of `Notify` is received, returns
  -- at the first of them, and ignores what comes after it.
  pub listen-ends :
      (before : List Signal) (last : Signal) (after : List Signal) (s : State P)
      → NoneLast before
      → is_last last ≡ true
      → ((listen pq panics before s).0 ≡ false)
        × (listen pq panics (before ++ last ∷ after) s
            ≡ (true, (listen_round pq panics last (listen pq panics before s).1).1))
  unfolding listen
  listen-ends [] last after s h e = (refl, rw (listen_round-last last s ∙ e) refl)
  listen-ends (sig ∷ before) last after s (not_last, h) e =
      rw (listen_round-last sig s ∙ not_last)
        (listen-ends before last after (listen_round pq panics sig s).1 h e)

  begin_unlisten-open :
      (channel : Bytes) (s : State P)
      → s.listener.stopped ≡ false
      → (pq.unlisten channel s.conn).0 ≡ none
      → begin_unlisten pq channel s ≡ (none, record s { conn = (pq.unlisten channel s.conn).1 })
  unfolding begin_unlisten
  begin_unlisten-open channel s h e = simp (h, e) refl

  abbrev dropped : Bytes → State P → State P
  dropped channel s =
      append_log (unlisten_all panics (take_channel channel s.listener).0) (record s {
        listener = (take_channel channel s.listener).1;
        conn = (pq.unlisten channel s.conn).1;
      })

  unlisten_channel-open :
      (channel : Bytes) (s : State P)
      → s.listener.stopped ≡ false
      → (pq.unlisten channel s.conn).0 ≡ none
      → unlisten_channel pq panics channel s ≡ (none, dropped channel s)
  unfolding unlisten_channel
  unlisten_channel-open channel s h e =
      let b = begin_unlisten-open channel s h e in
      rw (unlisten_channel, ap (λ r. r.0) b, ap (λ r. r.1) b) refl

  -- On a listener that is not closed, when `pq.Listener` unsubscribes the channel: `unlistenChannel`
  -- returns no error, calls the unlisten callbacks of the channel in the order of their
  -- registration, leaves the channel without callbacks, and keeps those of every other channel.
  pub unlisten_channel-drops :
      (channel : Bytes) (s : State P)
      → s.listener.stopped ≡ false
      → (pq.unlisten channel s.conn).0 ≡ none
      → let t = unlisten_channel pq panics channel s in
        (t.0 ≡ none)
        × (t.1.log
            ≡ s.log
              ++ unlisten_all panics
                  (calls_on channel (callbacks_of channel s.listener.unlisten_callbacks)))
        × (is_listening_on_channel (some t.1.listener) channel ≡ false)
        × ((k : Bytes)
            → bytes_eq channel k ≡ false
            → (callbacks_of k t.1.listener.notify_callbacks
                ≡ callbacks_of k s.listener.notify_callbacks)
              × (callbacks_of k t.1.listener.unlisten_callbacks
                  ≡ callbacks_of k s.listener.unlisten_callbacks))
  unfolding take_channel is_listening_on_channel
  unlisten_channel-drops channel s h e = rw (unlisten_channel-open channel s h e) (
    refl,
    refl,
    rw
        (
          callbacks_of-delete channel s.listener.notify_callbacks,
          callbacks_of-delete channel s.listener.unlisten_callbacks,
        )
        refl,
    λ k apart. (
      callbacks_of-delete_other k channel s.listener.notify_callbacks apart,
      callbacks_of-delete_other k channel s.listener.unlisten_callbacks apart,
    ),
  )

  close-open :
      (s : State P)
      → s.listener.stopped ≡ false
      → close pq panics s ≡ record {
        listener = record { stopped = true; notify_callbacks = []; unlisten_callbacks = [] };
        conn = pq.close s.conn;
        log = s.log ++ unlisten_all panics (calls_of s.listener.unlisten_callbacks);
      }
  unfolding close take_all begin_close
  close-open s h = simp h refl

  -- The listener is closed and has no callbacks.
  abbrev IsEmptied : Listener → Type 0
  IsEmptied l = (l.stopped ≡ true) × (l.notify_callbacks ≡ []) × (l.unlisten_callbacks ≡ [])

  -- Closing a listener that is not closed closes the connection and calls every registered unlisten
  -- callback; from then on closing again does nothing, `listenOnChannel` and `unlistenChannel`
  -- return their errors and do nothing, no notification reaches a callback, no channel is
  -- subscribed again, and no channel is listened on.
  pub close-final :
      (s : State P)
      → s.listener.stopped ≡ false
      → let t = close pq panics s in
        (t.conn ≡ pq.close s.conn)
        × (t.log ≡ s.log ++ unlisten_all panics (calls_of s.listener.unlisten_callbacks))
        × (close pq panics t ≡ t)
        × ((req : Request) → listen_on_channel pq req t ≡ (some (listener_closed req.channel), t))
        × ((channel : Bytes)
            → unlisten_channel pq panics channel t ≡ (some (no_listener_active channel), t))
        × ((channel payload : Bytes) → notify panics channel payload t ≡ t)
        × (resubscribe_channels pq t ≡ t)
        × ((channel : Bytes) → is_listening_on_channel (some t.listener) channel ≡ false)
  unfolding close take_all begin_close listen_on_channel begin_listen unlisten_channel
      begin_unlisten notify receivers callbacks_of notify_all resubscribe_channels
      is_listening_on_channel
  close-final s h = rw (close-open s h) (
    refl,
    refl,
    refl,
    λ req. refl,
    λ channel. refl,
    λ channel payload.
        ap
          (λ l. record {
            listener = record { stopped = true; notify_callbacks = []; unlisten_callbacks = [] };
            conn = pq.close s.conn;
            log = l;
          })
          (append-nil _),
    refl,
    λ channel. refl,
  )

  abbrev with_optional : List ℕ → Option ℕ → List ℕ
  with_optional callbacks none = callbacks
  with_optional callbacks (some callback) = callbacks ++ callback ∷ []

  callbacks_of-optional :
      (channel : Bytes) (o : Option ℕ) (m : CallbackMap)
      → callbacks_of channel (add_optional channel o m) ≡ with_optional (callbacks_of channel m) o
  callbacks_of-optional channel none m = refl
  callbacks_of-optional channel (some callback) m = callbacks_of-add channel callback m

  callbacks_of-optional_other :
      (k channel : Bytes) (o : Option ℕ) (m : CallbackMap)
      → bytes_eq channel k ≡ false
      → callbacks_of k (add_optional channel o m) ≡ callbacks_of k m
  callbacks_of-optional_other k channel none m apart = refl
  callbacks_of-optional_other k channel (some callback) m apart =
      callbacks_of-add_other k channel callback m apart

  begin_listen-open :
      (channel : Bytes) (s : State P)
      → s.listener.stopped ≡ false
      → refused (pq.listen channel s.conn).0 ≡ none
      → begin_listen pq channel s ≡ (none, record s { conn = (pq.listen channel s.conn).1 })
  unfolding begin_listen
  begin_listen-open channel s h e = simp (h, e) refl

  begin_listen-refused :
      (channel : Bytes) (s : State P) (x : ConnError)
      → s.listener.stopped ≡ false
      → refused (pq.listen channel s.conn).0 ≡ some x
      → begin_listen pq channel s
        ≡ (some (listen_failed channel x), record s { conn = (pq.listen channel s.conn).1 })
  unfolding begin_listen
  begin_listen-refused channel s x h e = simp (h, e) refl

  -- On a listener that is not closed, `listenOnChannel` fails with the error of `pq.Listener` and
  -- registers nothing when that error is another than that the channel is already open; otherwise
  -- it returns no error, appends each callback that is not nil to those of the channel, and keeps
  -- the callbacks of every other channel.
  pub listen_on_channel-registers :
      (req : Request) (s : State P)
      → s.listener.stopped ≡ false
      → let t = listen_on_channel pq req s in
        ((x : ConnError)
          → refused (pq.listen req.channel s.conn).0 ≡ some x
          → (t.0 ≡ some (listen_failed req.channel x)) × (t.1.listener ≡ s.listener))
        × (refused (pq.listen req.channel s.conn).0 ≡ none
            → (t.0 ≡ none)
              × (callbacks_of req.channel t.1.listener.notify_callbacks
                  ≡ with_optional
                      (callbacks_of req.channel s.listener.notify_callbacks)
                      req.on_notify)
              × (callbacks_of req.channel t.1.listener.unlisten_callbacks
                  ≡ with_optional
                      (callbacks_of req.channel s.listener.unlisten_callbacks)
                      req.on_unlisten)
              × ((k : Bytes)
                  → bytes_eq req.channel k ≡ false
                  → (callbacks_of k t.1.listener.notify_callbacks
                      ≡ callbacks_of k s.listener.notify_callbacks)
                    × (callbacks_of k t.1.listener.unlisten_callbacks
                        ≡ callbacks_of k s.listener.unlisten_callbacks)))
  unfolding listen_on_channel register
  listen_on_channel-registers req s h = (
    λ x e.
        let b = begin_listen-refused req.channel s x h e in
        rw (listen_on_channel, ap (λ r. r.0) b, ap (λ r. r.1) b) (refl, refl),
    λ e.
        let b = begin_listen-open req.channel s h e in
        rw (listen_on_channel, ap (λ r. r.0) b, ap (λ r. r.1) b)
          (
            refl,
            callbacks_of-optional req.channel req.on_notify s.listener.notify_callbacks,
            callbacks_of-optional req.channel req.on_unlisten s.listener.unlisten_callbacks,
            λ k apart. (
              callbacks_of-optional_other k req.channel req.on_notify s.listener.notify_callbacks
                  apart,
              callbacks_of-optional_other k req.channel req.on_unlisten
                  s.listener.unlisten_callbacks apart,
            ),
          ),
  )
