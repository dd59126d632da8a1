-- ===== src/Listener/Drain.antt =====
-- The goroutines of pqconn/listener.go come to an end: how many steps they may still take.
use go_sqldb.Prelude.{
  zero, ℕ, suc, ◌+◌, ◌*◌, ◌≤◌, ◌<◌, ◌≡◌, refl, ap, arith, inl, inr, ◌⊎◌, Bool, true, false, List,
  [], ◌∷◌, ◌++◌, Option, none, some, Bytes, Bool-cases, length, length-append, bytes_eq,
}
use go_sqldb.Listener.Callbacks.{
  Call, CallbackMap, calls_of, calls_on, delete_channel, callbacks_of, add_callback,
}
use go_sqldb.Listener.{PqListener, Listener, Request, register, take_channel, take_all}
use go_sqldb.Listener.Schedule.{
  World, Internal, registers, takes_channel, takes_all, calls_back, calls_notified, InternalRun,
  idle, round, IsIdle,
}

length-calls_on :
    (channel : Bytes) (callbacks : List ℕ) → length (calls_on channel callbacks) ≡ length callbacks
length-calls_on channel [] = refl
length-calls_on channel (x ∷ xs) = ap suc (length-calls_on channel xs)

length-add :
    (channel : Bytes) (callback : ℕ) (m : CallbackMap)
    → length (calls_of (add_callback channel callback m)) ≡ length (calls_of m) + 1
unfolding calls_of add_callback
length-add channel callback [] = omega arith
length-add channel callback ((key, callbacks) ∷ m) = elim (Bool-cases (bytes_eq key channel)) [
  | inl e ↦
      rw
        (
          e,
          length-append (calls_on key (callbacks ++ callback ∷ [])) (calls_of m),
          length-append (calls_on key callbacks) (calls_of m),
          length-calls_on key (callbacks ++ callback ∷ []),
          length-calls_on key callbacks,
          length-append callbacks (callback ∷ []),
        )
        (omega arith)
  | inr e ↦
      rw
        (
          e,
          length-append (calls_on key callbacks) (calls_of (add_callback channel callback m)),
          length-append (calls_on key callbacks) (calls_of m),
        )
        (omega (arith, length-add channel callback m))
]

length-delete :
    (channel : Bytes) (m : CallbackMap)
    → length (calls_of (delete_channel channel m))
        + length (calls_on channel (callbacks_of channel m))
      ≤ length (calls_of m)
unfolding calls_of delete_channel callbacks_of
length-delete channel [] = omega arith
length-delete channel ((key, callbacks) ∷ m) = elim (Bool-cases (bytes_eq key channel)) [
  | inl e ↦
      rw
        (
          e,
          length-append (calls_on key callbacks) (calls_of m),
          length-calls_on key callbacks,
          length-calls_on channel callbacks,
        )
        (omega (arith, length-delete channel m))
  | inr e ↦
      rw
        (
          e,
          length-append (calls_on key callbacks) (calls_of (delete_channel channel m)),
          length-append (calls_on key callbacks) (calls_of m),
        )
        (omega (arith, length-delete channel m))
]

length-register :
    (req : Request) (l : Listener) (callback : Option ℕ)
    → req.on_unlisten ≡ callback
    → length (calls_of (register req l).unlisten_callbacks)
      ≤ length (calls_of l.unlisten_callbacks) + 1
unfolding register
length-register req l none e = rw e (omega arith)
length-register req l (some callback) e =
    rw e (omega (arith, length-add req.channel callback l.unlisten_callbacks))

length-take_channel :
    (channel : Bytes) (l : Listener)
    → length (calls_of (take_channel channel l).1.unlisten_callbacks)
        + length (take_channel channel l).0
      ≤ length (calls_of l.unlisten_callbacks)
unfolding take_channel
length-take_channel channel l = length-delete channel l.unlisten_callbacks

length-take_all :
    (l : Listener)
    → length (calls_of (take_all l).1.unlisten_callbacks) + length (take_all l).0
      ≡ length (calls_of l.unlisten_callbacks)
unfolding take_all calls_of
length-take_all l = omega arith

abbrev as_number : Bool → ℕ
as_number true = 1
as_number false = 0

-- A bound on the steps that the goroutines may still take: a registration may add a callback, and
-- a registered callback may have to be taken and to be called.
abbrev pub steps_left : {P : Type 0} → World P → ℕ
steps_left w =
    3 * length w.registering
    + length w.unlistening
    + as_number w.closing
    + length w.unlisten_calls
    + length w.notify_calls
    + 2 * length (calls_of w.state.listener.unlisten_callbacks)

split_length :
    {A : Type 0} {l : List A} (before : List A) (a : A) (after : List A)
    → l ≡ before ++ a ∷ after
    → length l ≡ length (before ++ after) + 1
split_length before a after e =
    rw e (omega (arith, length-append before (a ∷ after), length-append before after))

List-cases : {A : Type 0} (l : List A) → (l ≡ []) ⊎ ((a : A) × (rest : List A) × (l ≡ a ∷ rest))
List-cases [] = inl refl
List-cases (a ∷ rest) = inr (a, rest, refl)

module _ {P : Type 0} (pq : PqListener P) (panics : Call → Bool) where
  pub Internal-shrinks : {w v : World P} → Internal pq panics w v → steps_left v < steps_left w
  Internal-shrinks {w} (registers req before after e e') = rw e' (
      omega (
        arith,
        split_length before req after e,
        length-register req w.state.listener req.on_unlisten refl,
      ))
  Internal-shrinks {w} (takes_channel channel before after e e') = rw e' (
      omega (
        arith,
        split_length before channel after e,
        length-append w.unlisten_calls (take_channel channel w.state.listener).0,
        length-take_channel channel w.state.listener,
      ))
  Internal-shrinks {w} (takes_all e e') = rw e' (
      omega (
        arith,
        ap as_number e,
        length-append w.unlisten_calls (take_all w.state.listener).0,
        length-take_all w.state.listener,
      ))
  Internal-shrinks {w} (calls_back call before after e e') =
      rw e' (omega (arith, split_length before call after e))
  Internal-shrinks {w} (calls_notified payload call before after e e') =
      rw e' (omega (arith, split_length before (payload, call) after e))

  pub InternalRun-bounded :
      {n : ℕ} {w v : World P} → InternalRun pq panics n w v → n + steps_left v ≤ steps_left w
  InternalRun-bounded idle = omega arith
  InternalRun-bounded (round s r) = omega (arith, Internal-shrinks s, InternalRun-bounded r)

  abbrev pub CanStep : World P → Type 0
  CanStep w = (v : World P) × Internal pq panics w v

  -- Unless every goroutine is done, one of them can step.
  pub progress : (w : World P) → IsIdle w ⊎ CanStep w
  progress w = elim (List-cases w.registering) [
    | inr (req, rest, e) ↦ inr (_, registers req [] rest e refl)
    | inl r ↦ elim (List-cases w.unlistening) [
      | inr (channel, rest, e) ↦ inr (_, takes_channel channel [] rest e refl)
      | inl u ↦ elim (Bool-cases w.closing) [
        | inl e ↦ inr (_, takes_all e refl)
        | inr c ↦ elim (List-cases w.unlisten_calls) [
          | inr (call, rest, e) ↦ inr (_, calls_back call [] rest e refl)
          | inl b ↦ elim (List-cases w.notify_calls) [
            | inr ((payload, call), rest, e) ↦ inr (_, calls_notified payload call [] rest e refl)
            | inl n ↦ inl (r, u, c, b, n)
          ]
        ]
      ]
    ]
  ]

  settle :
      (fuel : ℕ) (w : World P)
      → steps_left w < fuel
      → (n : ℕ) × (v : World P) × InternalRun pq panics n w v × IsIdle v
  settle zero w h = absurd (omega arith)
  settle (suc fuel) w h = elim (progress w) [
    | inl done ↦ (0, w, idle, done)
    | inr (v, s) ↦
        let (n, u, r, done) = settle fuel v (omega (arith, Internal-shrinks s)) in
        (n + 1, u, round s r, done)
  ]

  -- While no method of the listener is started, its goroutines take at most `steps_left` steps in
  -- whatever order they take their turns, a step is possible until they are all done, and some
  -- order brings them all to their end.
  pub goroutines-end :
      (w : World P)
      → ((n : ℕ) (v : World P) → InternalRun pq panics n w v → n ≤ steps_left w)
        × ((n : ℕ) (v : World P) → InternalRun pq panics n w v → IsIdle v ⊎ CanStep v)
        × ((n : ℕ) × (v : World P) × InternalRun pq panics n w v × IsIdle v)
  goroutines-end w = (
    λ n v r. let h = InternalRun-bounded r in omega (arith, h),
    λ n v r. progress v,
    settle (steps_left w + 1) w (omega arith),
  )
