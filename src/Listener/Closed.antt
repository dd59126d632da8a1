-- ===== src/Listener/Closed.antt =====
-- What `close` of pqconn/listener.go owes to the unlisten callbacks.
use go_sqldb.Prelude.{
  ℕ, ◌≡◌, refl, ap, arith, inl, inr, ◌⊎◌, Bool, true, false, List, [], ◌∷◌, ◌++◌, Bytes,
}
use go_sqldb.Listener.Callbacks.{delete_channel, Call, times, calls_of}
use go_sqldb.Listener.{PqListener, Listener, take_channel, take_all, delete_channel}
use go_sqldb.Listener.Conserved.{IsConserved, Run-IsConserved, Internal-IsConserved}
use go_sqldb.Listener.Schedule.{
  World, start, Internal, registers, takes_channel, takes_all, calls_back, calls_notified,
  InternalRun, idle, round, IsIdle, closes, Run, next, started_close, called,
}

-- `close` is about to empty the maps, or has done so.
record IsClosing {P : Type 0} (owed : List Call) (w : World P) : Type 0 where
  pub nothing_registers : w.registering ≡ []
  pub emptied : (w.closing ≡ true) ⊎ (w.state.listener.unlisten_callbacks ≡ [])
  pub same_registered : w.registered ≡ owed

pub nothing_between :
    {A B : Type 0} {l : List A} (before : List A) (a : A) (after : List A)
    → l ≡ before ++ a ∷ after
    → l ≡ []
    → B
nothing_between [] a after e h = cc
nothing_between (b ∷ before) a after e h = cc

take_all-empty : (l : Listener) → (take_all l).1.unlisten_callbacks ≡ []
unfolding take_all
take_all-empty l = refl

take_channel-empty :
    (channel : Bytes) (l : Listener)
    → l.unlisten_callbacks ≡ []
    → (take_channel channel l).1.unlisten_callbacks ≡ []
unfolding take_channel delete_channel
take_channel-empty channel l e = rw e refl

calls_of-empty : calls_of [] ≡ []
unfolding calls_of
calls_of-empty = refl

module _ {P : Type 0} (pq : PqListener P) (panics : Call → Bool) where
  Internal-IsClosing :
      {owed : List Call} {w v : World P}
      → Internal pq panics w v
      → IsClosing owed w
      → IsClosing owed v
  Internal-IsClosing (registers req before after e e') h =
      nothing_between before req after e h.nothing_registers
  Internal-IsClosing {w} (takes_channel channel before after e e') h = rw e' record {
    nothing_registers = h.nothing_registers;
    emptied = elim h.emptied [
      | inl c ↦ inl c
      | inr m ↦ inr (take_channel-empty channel w.state.listener m)
    ];
    same_registered = h.same_registered;
  }
  Internal-IsClosing {w} (takes_all e e') h = rw e' record {
    nothing_registers = h.nothing_registers;
    emptied = inr (take_all-empty w.state.listener);
    same_registered = h.same_registered;
  }
  Internal-IsClosing {w} (calls_back call before after e e') h = rw e' record {
    nothing_registers = h.nothing_registers;
    emptied = h.emptied;
    same_registered = h.same_registered;
  }
  Internal-IsClosing {w} (calls_notified payload call before after e e') h = rw e' record {
    nothing_registers = h.nothing_registers;
    emptied = h.emptied;
    same_registered = h.same_registered;
  }

  InternalRun-IsClosing :
      {owed : List Call} {n : ℕ} {w v : World P}
      → InternalRun pq panics n w v
      → IsClosing owed w
      → IsClosing owed v
  InternalRun-IsClosing idle h = h
  InternalRun-IsClosing (round s r) h = InternalRun-IsClosing r (Internal-IsClosing s h)

  InternalRun-IsConserved :
      {n : ℕ} {w v : World P} → InternalRun pq panics n w v → IsConserved w → IsConserved v
  InternalRun-IsConserved idle h = h
  InternalRun-IsConserved (round s r) h =
      InternalRun-IsConserved r (Internal-IsConserved pq panics s h)

  started_close-IsClosing :
      (w : World P)
      → w.registering ≡ []
      → w.state.listener.stopped ≡ false
      → IsClosing w.registered (started_close pq w)
  unfolding started_close
  started_close-IsClosing w none_registers opened =
      simp opened
        (record { nothing_registers = none_registers; emptied = inl refl; same_registered = refl })

  settled-exact :
      {owed : List Call} (v : World P)
      → IsConserved v
      → IsClosing owed v
      → IsIdle v
      → (c : Call) → times c (called v.state.log) ≡ times c owed
  settled-exact {owed} v k h (r, u, z, b, n) c = elim h.emptied [
    | inl e ↦ absurd (cc (e, z))
    | inr e ↦ omega (
      arith,
      k.accounted c,
      ap (times c) b,
      ap (λ m. times c (calls_of m)) e,
      ap (times c) calls_of-empty,
      ap (times c) h.same_registered,
    )
  ]

  -- When the first call of `close` starts and no call of `listenOnChannel` waits for the lock, then,
  -- whatever the goroutines have done before and in whatever order they end, every unlisten callback
  -- has in the end been called exactly as often as it was ever registered.
  pub close-calls_exactly :
      (p : P) (w : World P)
      → Run pq panics (start p) w
      → w.registering ≡ []
      → w.state.listener.stopped ≡ false
      → (n : ℕ) (v : World P) → InternalRun pq panics n (started_close pq w) v
      → IsIdle v
      → (c : Call) → times c (called v.state.log) ≡ times c w.registered
  close-calls_exactly p w r none_registers opened n v s done =
      settled-exact v
        (InternalRun-IsConserved s (Run-IsConserved pq panics p (next r (closes refl))))
        (InternalRun-IsClosing s (started_close-IsClosing w none_registers opened)) done
