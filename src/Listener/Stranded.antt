-- ===== src/Listener/Stranded.antt =====
-- A call of `listenOnChannel` of pqconn/listener.go that has tested `stop` before `close`, and
-- registers its callbacks after `close` has emptied the maps.
use go_sqldb.Prelude.{
  ◌+◌, ◌≡◌, refl, ap, sym, ◌∙◌, arith, Bool, true, false, [], ◌∷◌, ◌++◌, Bytes, bytes_eq_refl,
}
use go_sqldb.Listener.Callbacks.{calls_of, Call, times, times-split}
use go_sqldb.Listener.{
  PqListener, Listener, Request, register, safe_unlisten_callback, safe_notify_callback, ℕ, some,
  no_listener_active, listener_closed, none, new_listener, take_all, calls_of,
}
use go_sqldb.Listener.Methods.{begin_listen, begin_unlisten, State, begin_close}
use go_sqldb.Listener.Keeps.{
  Keeps, times-called, called-unlisten, called-notify, handle_connection_event-Keeps, tick-Keeps,
}
use go_sqldb.Listener.Closed.{nothing_between}
use go_sqldb.Listener.Schedule.{
  World, Internal, registers, takes_channel, takes_all, calls_back, calls_notified, Step, inner,
  listens, unlistens, closes, notifies, pings, connects, Run, here, next, started_listen,
  started_unlisten, started_close, started_notify, called, start, requested, IsIdle,
}

-- The listener is closed, no goroutine will take callbacks out of the maps, and the call has neither
-- run nor been started.
record IsStranded {P : Type 0} (call : Call) (w : World P) : Type 0 where
  pub stopped : w.state.listener.stopped ≡ true
  pub not_closing : w.closing ≡ false
  pub nothing_unlistens : w.unlistening ≡ []
  pub not_called : times call (called w.state.log) ≡ 0
  pub not_started : times call w.unlisten_calls ≡ 0

times_self : (c : Call) → times c (c ∷ []) ≡ 1
times_self (channel, callback) = ground (arith, bytes_eq_refl channel)

register-stopped : (req : Request) (l : Listener) → (register req l).stopped ≡ l.stopped
unfolding register
register-stopped req l = refl

module _ {P : Type 0} (pq : PqListener P) (panics : Call → Bool) (call : Call) where
  Internal-IsStranded :
      {w v : World P} → Internal pq panics w v → IsStranded call w → IsStranded call v
  Internal-IsStranded {w} (registers req before after e e') h = rw e' record {
    stopped = register-stopped req w.state.listener ∙ h.stopped;
    not_closing = h.not_closing;
    nothing_unlistens = h.nothing_unlistens;
    not_called = h.not_called;
    not_started = h.not_started;
  }
  Internal-IsStranded {w} (takes_channel channel before after e e') h =
      nothing_between before channel after e h.nothing_unlistens
  Internal-IsStranded {w} (takes_all e e') h = absurd (cc (e, h.not_closing))
  Internal-IsStranded {w} (calls_back d before after e e') h =
      let none_left : times call (before ++ after) + times call (d ∷ []) ≡ 0 =
        sym (times-split call d before after) ∙ ap (times call) (sym e) ∙ h.not_started in
      rw e' record {
        stopped = h.stopped;
        not_closing = h.not_closing;
        nothing_unlistens = h.nothing_unlistens;
        not_called = omega (
          arith,
          none_left,
          h.not_called,
          times-called call w.state.log (safe_unlisten_callback panics d),
          ap (times call) (called-unlisten panics d),
        );
        not_started = omega (arith, none_left);
      }
  Internal-IsStranded {w} (calls_notified payload d before after e e') h = rw e' record {
    stopped = h.stopped;
    not_closing = h.not_closing;
    nothing_unlistens = h.nothing_unlistens;
    not_called = omega (
      arith,
      h.not_called,
      times-called call w.state.log (safe_notify_callback panics payload d),
      ap (times call) (called-notify panics payload d),
    );
    not_started = h.not_started;
  }

  Keeps-IsStranded :
      (w : World P) (s : State P)
      → Keeps w.state s
      → IsStranded call w
      → IsStranded call (record w { state = s })
  Keeps-IsStranded w s k h = record {
    stopped = rw k.same_listener h.stopped;
    not_closing = h.not_closing;
    nothing_unlistens = h.nothing_unlistens;
    not_called = rw k.same_called h.not_called;
    not_started = h.not_started;
  }

  begin_listen-stopped :
      (channel : Bytes) (s : State P)
      → s.listener.stopped ≡ true
      → begin_listen pq channel s ≡ (some (listener_closed channel), s)
  unfolding begin_listen
  begin_listen-stopped channel s h = simp h refl

  begin_unlisten-stopped :
      (channel : Bytes) (s : State P)
      → s.listener.stopped ≡ true
      → begin_unlisten pq channel s ≡ (some (no_listener_active channel), s)
  unfolding begin_unlisten
  begin_unlisten-stopped channel s h = simp h refl

  started_listen-stopped :
      (req : Request) (w : World P) → w.state.listener.stopped ≡ true → started_listen pq req w ≡ w
  unfolding started_listen
  started_listen-stopped req w h =
      let e = begin_listen-stopped req.channel w.state h in
      rw (started_listen, ap (λ r. r.0) e, ap (λ r. r.1) e) refl

  started_unlisten-stopped :
      (channel : Bytes) (w : World P)
      → w.state.listener.stopped ≡ true
      → started_unlisten pq channel w ≡ w
  unfolding started_unlisten
  started_unlisten-stopped channel w h =
      let e = begin_unlisten-stopped channel w.state h in
      rw (started_unlisten, ap (λ r. r.0) e, ap (λ r. r.1) e) refl

  started_close-stopped : (w : World P) → w.state.listener.stopped ≡ true → started_close pq w ≡ w
  unfolding started_close
  started_close-stopped w h = simp h refl

  started_notify-IsStranded :
      (channel payload : Bytes) (w : World P)
      → IsStranded call w
      → IsStranded call (started_notify pq channel payload w)
  unfolding started_notify
  started_notify-IsStranded channel payload w h = record {
    stopped = h.stopped;
    not_closing = h.not_closing;
    nothing_unlistens = h.nothing_unlistens;
    not_called = h.not_called;
    not_started = h.not_started;
  }

  Step-IsStranded : {w v : World P} → Step pq panics w v → IsStranded call w → IsStranded call v
  Step-IsStranded (inner s) h = Internal-IsStranded s h
  Step-IsStranded {w} (listens req e) h = rw (e, started_listen-stopped req w h.stopped) h
  Step-IsStranded {w} (unlistens channel e) h =
      rw (e, started_unlisten-stopped channel w h.stopped) h
  Step-IsStranded {w} (closes e) h = rw (e, started_close-stopped w h.stopped) h
  Step-IsStranded {w} (notifies channel payload e) h =
      rw e (started_notify-IsStranded channel payload w h)
  Step-IsStranded {w} (pings e) h = rw e (Keeps-IsStranded w _ (tick-Keeps pq panics w.state) h)
  Step-IsStranded {w} (connects event err e) h =
      rw e (Keeps-IsStranded w _ (handle_connection_event-Keeps pq event err w.state) h)

  Run-IsStranded : {w v : World P} → Run pq panics w v → IsStranded call w → IsStranded call v
  Run-IsStranded here h = h
  Run-IsStranded (next r s) h = Step-IsStranded s (Run-IsStranded r h)

module _ {P : Type 0} (pq : PqListener P) (panics : Call → Bool) (p : P) (req : Request)
    (callback : ℕ) where
  -- `listenOnChannel` has subscribed, then `close` has run, then the callbacks are registered.
  abbrev subscribed : World P
  subscribed = record (start p) {
    state = record { listener = new_listener; conn = (pq.listen req.channel p).1; log = [] };
    registering = req ∷ [];
  }

  abbrev emptied : World P
  emptied = record (start p) {
    state = record {
      listener = record new_listener { stopped = true };
      conn = pq.close (pq.listen req.channel p).1;
      log = [];
    };
    registering = req ∷ [];
  }

  abbrev late : World P
  late = record emptied {
    state = record emptied.state { listener = register req emptied.state.listener };
    registering = [];
    registered = requested req;
  }

  subscribed-started :
      (pq.listen req.channel p).0 ≡ none → subscribed ≡ started_listen pq req (start p)
  unfolding started_listen begin_listen
  subscribed-started h = rw (started_listen, h) refl

  Run-late : (pq.listen req.channel p).0 ≡ none → Run pq panics (start p) late
  unfolding started_close begin_close take_all calls_of
  Run-late h =
      next {u = emptied}
        (next (next (next here (listens req (subscribed-started h))) (closes refl))
          (inner (takes_all refl refl)))
        (inner (registers req [] [] refl refl))

  late-IsStranded : IsStranded (req.channel, callback) late
  late-IsStranded = record {
    stopped = register-stopped req emptied.state.listener;
    not_closing = refl;
    nothing_unlistens = refl;
    not_called = refl;
    not_started = refl;
  }

  -- When `pq.Listener` takes the subscription of a first call of `listenOnChannel` with an unlisten
  -- callback, then some order of this call and one of `close` ends with the listener closed, no
  -- goroutine left and the callback registered once, and nothing that is done with the listener
  -- afterwards ever calls the callback.
  pub late_registration-never_called :
      req.on_unlisten ≡ some callback
      → (pq.listen req.channel p).0 ≡ none
      → (w : World P) × Run pq panics (start p) w
        × IsIdle w
        × (w.state.listener.stopped ≡ true)
        × (times (req.channel, callback) w.registered ≡ 1)
        × ((v : World P)
            → Run pq panics w v
            → times (req.channel, callback) (called v.state.log) ≡ 0)
  late_registration-never_called e h = (
    late,
    Run-late h,
    (refl, refl, refl, refl, refl),
    register-stopped req emptied.state.listener,
    rw e (times_self (req.channel, callback)),
    λ v r. (Run-IsStranded pq panics (req.channel, callback) r late-IsStranded).not_called,
  )
