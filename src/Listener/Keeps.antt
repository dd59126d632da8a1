-- ===== src/Listener/Keeps.antt =====
-- What the steps of pqconn/listener.go that only use the connection leave unchanged.
use go_sqldb.Prelude.{
  ℕ, ◌+◌, ◌≡◌, refl, ap, ◌∙◌, inl, inr, Bool, List, [], ◌∷◌, ◌++◌, Option, none, some, Bytes,
  Bool-cases, append-nil,
}
use go_sqldb.Listener.Callbacks.{Call, times, times-append}
use go_sqldb.Listener.{
  PqListener, ListenerError, Entry, notified, unlistened, logged, resubscribe_failed, event_error,
  subscribed_channels, ping_failed, safe_unlisten_callback, safe_notify_callback,
}
use go_sqldb.Listener.Methods.{
  State, append_log, begin_listen, begin_unlisten, ListenerEvent, connected, disconnected,
  reconnected, connection_attempt_failed, unknown, refused, handle_connection_event, listen_round,
  tick, resubscribe_channels, resubscribe_each, unknown,
}
use go_sqldb.Listener.Schedule.{called}

pub called-append : (xs ys : List Entry) → called (xs ++ ys) ≡ called xs ++ called ys
called-append [] ys = refl
called-append (unlistened call ∷ xs) ys = ap (λ (l : List Call). call ∷ l) (called-append xs ys)
called-append (notified call payload ∷ xs) ys = called-append xs ys
called-append (logged e ∷ xs) ys = called-append xs ys

pub times-called :
    (c : Call) (xs ys : List Entry)
    → times c (called (xs ++ ys)) ≡ times c (called xs) + times c (called ys)
times-called c xs ys = ap (times c) (called-append xs ys) ∙ times-append c (called xs) (called ys)

module _ (panics : Call → Bool) where
  pub called-unlisten : (call : Call) → called (safe_unlisten_callback panics call) ≡ call ∷ []
  unfolding safe_unlisten_callback
  called-unlisten call = elim (Bool-cases (panics call)) [ inl e ↦ rw e refl | inr e ↦ rw e refl ]

  pub called-notify :
      (payload : Bytes) (call : Call) → called (safe_notify_callback panics payload call) ≡ []
  unfolding safe_notify_callback
  called-notify payload call = elim (Bool-cases (panics call)) [
    | inl e ↦ rw e refl
    | inr e ↦ rw e refl
  ]

-- The parts that the invariant reads are unchanged.
pub record Keeps {P : Type 0} (s t : State P) : Type 0 where
  pub same_listener : t.listener ≡ s.listener
  pub same_called : called t.log ≡ called s.log

Keeps-refl : {P : Type 0} (s : State P) → Keeps s s
Keeps-refl s = record { same_listener = refl; same_called = refl }

Keeps-trans : {P : Type 0} {s t u : State P} → Keeps s t → Keeps t u → Keeps s u
Keeps-trans h k = record {
  same_listener = k.same_listener ∙ h.same_listener;
  same_called = k.same_called ∙ h.same_called;
}

Keeps-logged :
    {P : Type 0} (s : State P) (e : ListenerError) → Keeps s (append_log (logged e ∷ []) s)
Keeps-logged s e = record {
  same_listener = refl;
  same_called = called-append s.log (logged e ∷ []) ∙ append-nil (called s.log);
}

Keeps-failed :
    {P : Type 0} {A : Type 0} (s : State P) (o : Option A) (f : A → ListenerError)
    → Keeps s (elim o [ none ↦ s | some x ↦ append_log (logged (f x) ∷ []) s ])
Keeps-failed s none f = Keeps-refl s
Keeps-failed s (some x) f = Keeps-logged s (f x)

module _ {P : Type 0} (pq : PqListener P) where
  pub begin_listen-Keeps : (channel : Bytes) (s : State P) → Keeps s (begin_listen pq channel s).1
  unfolding begin_listen
  begin_listen-Keeps channel s = elim (Bool-cases s.listener.stopped) [
    | inl e ↦ rw e record { same_listener = refl; same_called = refl }
    | inr e ↦ rw e record { same_listener = refl; same_called = refl }
  ]

  pub begin_unlisten-Keeps :
      (channel : Bytes) (s : State P) → Keeps s (begin_unlisten pq channel s).1
  unfolding begin_unlisten
  begin_unlisten-Keeps channel s = elim (Bool-cases s.listener.stopped) [
    | inl e ↦ rw e record { same_listener = refl; same_called = refl }
    | inr e ↦ rw e record { same_listener = refl; same_called = refl }
  ]

  resubscribe_each-Keeps :
      (channels : List Bytes) (s : State P) → Keeps s (resubscribe_each pq channels s)
  unfolding resubscribe_each
  resubscribe_each-Keeps [] s = Keeps-refl s
  resubscribe_each-Keeps (channel ∷ channels) s =
      let t : State P = record s { conn = (pq.listen channel s.conn).1 } in
      let k : Keeps s t = record { same_listener = refl; same_called = refl } in
      Keeps-trans k (
        Keeps-trans
          (Keeps-failed t (refused (pq.listen channel s.conn).0) (resubscribe_failed channel))
          (resubscribe_each-Keeps channels _))

  resubscribe_channels-Keeps : (s : State P) → Keeps s (resubscribe_channels pq s)
  unfolding resubscribe_channels
  resubscribe_channels-Keeps s = elim (Bool-cases s.listener.stopped) [
    | inl e ↦ simp e (Keeps-refl s)
    | inr e ↦ simp e (resubscribe_each-Keeps (subscribed_channels s.listener) s)
  ]

  pub handle_connection_event-Keeps :
      (event : ListenerEvent) (e : Option ℕ) (s : State P)
      → Keeps s (handle_connection_event pq event e s)
  unfolding handle_connection_event
  handle_connection_event-Keeps connected e s = Keeps-failed s e event_error
  handle_connection_event-Keeps disconnected e s = Keeps-failed s e event_error
  handle_connection_event-Keeps reconnected e s =
      Keeps-trans (Keeps-failed s e event_error) (resubscribe_channels-Keeps _)
  handle_connection_event-Keeps connection_attempt_failed e s = Keeps-failed s e event_error
  handle_connection_event-Keeps (unknown n) e s = Keeps-failed s e event_error

module _ {P : Type 0} (pq : PqListener P) (panics : Call → Bool) where
  pub tick-Keeps : (s : State P) → Keeps s (listen_round pq panics tick s).1
  unfolding listen_round
  tick-Keeps s =
      let t : State P = record s { conn = (pq.ping s.conn).1 } in
      let k : Keeps s t = record { same_listener = refl; same_called = refl } in
      Keeps-trans k (Keeps-failed t (pq.ping s.conn).0 ping_failed)
