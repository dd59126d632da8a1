-- ===== src/Listener/Conserved.antt =====
-- What becomes of the unlisten callbacks of pqconn/listener.go in every order of the goroutines.
use go_sqldb.Prelude.{
  ℕ, ◌+◌, ◌≡◌, refl, ap, arith, inl, inr, Bool, [], ◌∷◌, ◌++◌, Option, none, some, Bytes,
  Bool-cases,
}
use go_sqldb.Listener.Callbacks.{
  times-split, Call, IsMap, times, times-append, times-add, times-delete, add-IsMap, delete-IsMap,
  calls_of,
}
use go_sqldb.Listener.{
  PqListener, ListenerError, Listener, Request, register, take_channel, take_all,
  safe_notify_callback, safe_unlisten_callback,
}
use go_sqldb.Listener.Methods.{State, begin_listen, begin_unlisten, begin_close}
use go_sqldb.Listener.Keeps.{
  called-unlisten, called-notify, Keeps, times-called, begin_listen-Keeps, begin_unlisten-Keeps,
  handle_connection_event-Keeps, tick-Keeps,
}
use go_sqldb.Listener.Schedule.{
  World, start, requested, Internal, registers, takes_channel, takes_all, calls_back,
  calls_notified, started_listen, started_unlisten, started_close, started_notify, Step, inner,
  listens, unlistens, closes, notifies, pings, connects, Run, here, next, called,
}

-- Every unlisten callback has been called, is about to be, or is registered, as often as it was
-- ever registered.
pub record IsConserved {P : Type 0} (w : World P) : Type 0 where
  pub accounted :
      (c : Call)
      → times c w.registered
        ≡ times c (called w.state.log)
          + times c w.unlisten_calls
          + times c (calls_of w.state.listener.unlisten_callbacks)
  pub distinct : IsMap w.state.listener.unlisten_callbacks

optional-distinct :
    (req : Request) (l : Listener) (callback : Option ℕ)
    → req.on_unlisten ≡ callback
    → IsMap l.unlisten_callbacks
    → IsMap (register req l).unlisten_callbacks
unfolding register
optional-distinct req l none e h = rw e h
optional-distinct req l (some callback) e h =
    rw e (add-IsMap req.channel callback l.unlisten_callbacks h)

times-register :
    (c : Call) (req : Request) (l : Listener) (callback : Option ℕ)
    → req.on_unlisten ≡ callback
    → times c (calls_of (register req l).unlisten_callbacks)
      ≡ times c (calls_of l.unlisten_callbacks) + times c (requested req)
unfolding register
times-register c req l none e = rw e (omega arith)
times-register c req l (some callback) e =
    rw e (times-add c req.channel callback l.unlisten_callbacks)

times-take_channel :
    (c : Call) (channel : Bytes) (l : Listener)
    → IsMap l.unlisten_callbacks
    → times c (calls_of (take_channel channel l).1.unlisten_callbacks)
        + times c (take_channel channel l).0
      ≡ times c (calls_of l.unlisten_callbacks)
unfolding take_channel
times-take_channel c channel l h = times-delete c channel l.unlisten_callbacks h

take_channel-distinct :
    (channel : Bytes) (l : Listener)
    → IsMap l.unlisten_callbacks
    → IsMap (take_channel channel l).1.unlisten_callbacks
unfolding take_channel
take_channel-distinct channel l h = delete-IsMap channel l.unlisten_callbacks h

times-take_all :
    (c : Call) (l : Listener)
    → times c (calls_of (take_all l).1.unlisten_callbacks) + times c (take_all l).0
      ≡ times c (calls_of l.unlisten_callbacks)
unfolding take_all calls_of
times-take_all c l = omega arith

take_all-distinct : (l : Listener) → IsMap (take_all l).1.unlisten_callbacks
unfolding take_all
take_all-distinct l = tt

module _ {P : Type 0} (pq : PqListener P) (panics : Call → Bool) where
  Keeps-IsConserved :
      (w : World P) (s : State P)
      → Keeps w.state s
      → IsConserved w
      → IsConserved (record w { state = s })
  Keeps-IsConserved w s k h = record {
    accounted = λ c. rw (k.same_listener, k.same_called) (h.accounted c);
    distinct = rw k.same_listener h.distinct;
  }

  pub Internal-IsConserved :
      {w v : World P} → Internal pq panics w v → IsConserved w → IsConserved v
  Internal-IsConserved {w} (registers req before after e e') h = rw e' record {
    accounted = λ c. omega (
      arith,
      h.accounted c,
      times-append c w.registered (requested req),
      times-register c req w.state.listener req.on_unlisten refl,
    );
    distinct = optional-distinct req w.state.listener req.on_unlisten refl h.distinct;
  }
  Internal-IsConserved {w} (takes_channel channel before after e e') h = rw e' record {
    accounted = λ c. omega (
      arith,
      h.accounted c,
      times-take_channel c channel w.state.listener h.distinct,
      times-append c w.unlisten_calls (take_channel channel w.state.listener).0,
    );
    distinct = take_channel-distinct channel w.state.listener h.distinct;
  }
  Internal-IsConserved {w} (takes_all e e') h = rw e' record {
    accounted = λ c. omega (
      arith,
      h.accounted c,
      times-take_all c w.state.listener,
      times-append c w.unlisten_calls (take_all w.state.listener).0,
    );
    distinct = take_all-distinct w.state.listener;
  }
  Internal-IsConserved {w} (calls_back call before after e e') h = rw e' record {
    accounted = λ c. omega (
      arith,
      h.accounted c,
      ap (times c) e,
      times-split c call before after,
      times-called c w.state.log (safe_unlisten_callback panics call),
      ap (times c) (called-unlisten panics call),
    );
    distinct = h.distinct;
  }
  Internal-IsConserved {w} (calls_notified payload call before after e e') h = rw e' record {
    accounted = λ c. omega (
      arith,
      h.accounted c,
      times-called c w.state.log (safe_notify_callback panics payload call),
      ap (times c) (called-notify panics payload call),
    );
    distinct = h.distinct;
  }

  begun-IsConserved :
      (w u : World P) (s : State P) (e : Option ListenerError)
      → u.registered ≡ w.registered
      → u.unlisten_calls ≡ w.unlisten_calls
      → Keeps w.state s
      → IsConserved w
      → IsConserved (elim e [ none ↦ record u { state = s } | some x ↦ record w { state = s } ])
  begun-IsConserved w u s none r c k h = record {
    accounted = λ d. rw (r, c, k.same_listener, k.same_called) (h.accounted d);
    distinct = rw k.same_listener h.distinct;
  }
  begun-IsConserved w u s (some x) r c k h = Keeps-IsConserved w s k h

  started_listen-IsConserved :
      (req : Request) (w : World P) → IsConserved w → IsConserved (started_listen pq req w)
  unfolding started_listen
  started_listen-IsConserved req w h =
      begun-IsConserved w (record w { registering = w.registering ++ req ∷ [] }) _
        (begin_listen pq req.channel w.state).0 refl refl
        (begin_listen-Keeps pq req.channel w.state) h

  started_unlisten-IsConserved :
      (channel : Bytes) (w : World P) → IsConserved w → IsConserved (started_unlisten pq channel w)
  unfolding started_unlisten
  started_unlisten-IsConserved channel w h =
      begun-IsConserved w (record w { unlistening = w.unlistening ++ channel ∷ [] }) _
        (begin_unlisten pq channel w.state).0 refl refl (begin_unlisten-Keeps pq channel w.state) h

  started_close-IsConserved : (w : World P) → IsConserved w → IsConserved (started_close pq w)
  unfolding started_close begin_close
  started_close-IsConserved w h = elim (Bool-cases w.state.listener.stopped) [
    | inl e ↦ simp e h
    | inr e ↦ simp e (record { accounted = h.accounted; distinct = h.distinct })
  ]

  started_notify-IsConserved :
      (channel payload : Bytes) (w : World P)
      → IsConserved w
      → IsConserved (started_notify pq channel payload w)
  unfolding started_notify
  started_notify-IsConserved channel payload w h = record {
    accounted = h.accounted;
    distinct = h.distinct;
  }

  pub Step-IsConserved : {w v : World P} → Step pq panics w v → IsConserved w → IsConserved v
  Step-IsConserved (inner s) h = Internal-IsConserved s h
  Step-IsConserved {w} (listens req e) h = rw e (started_listen-IsConserved req w h)
  Step-IsConserved {w} (unlistens channel e) h = rw e (started_unlisten-IsConserved channel w h)
  Step-IsConserved {w} (closes e) h = rw e (started_close-IsConserved w h)
  Step-IsConserved {w} (notifies channel payload e) h =
      rw e (started_notify-IsConserved channel payload w h)
  Step-IsConserved {w} (pings e) h = rw e (Keeps-IsConserved w _ (tick-Keeps pq panics w.state) h)
  Step-IsConserved {w} (connects event err e) h =
      rw e (Keeps-IsConserved w _ (handle_connection_event-Keeps pq event err w.state) h)

  start-IsConserved : (p : P) → IsConserved (start p)
  unfolding calls_of
  start-IsConserved p = record { accounted = λ c. omega arith; distinct = tt }

  -- In every order in which the goroutines of a new listener take their turns, each unlisten
  -- callback has been called, waits in a started goroutine or is still registered, as often as it
  -- was ever registered, and no channel stands twice in the map of unlisten callbacks.
  pub Run-IsConserved : (p : P) {w : World P} → Run pq panics (start p) w → IsConserved w
  Run-IsConserved p here = start-IsConserved p
  Run-IsConserved p (next r s) = Step-IsConserved s (Run-IsConserved p r)
