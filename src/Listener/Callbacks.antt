-- ===== src/Listener/Callbacks.antt =====
-- The maps of callbacks that listener.go keeps, `map[string][]func`: an association list from a
-- channel to the callbacks in the order of their registration. A number names a callback.
use go_sqldb.Prelude.{
  ℕ, ◌+◌, ◌≡◌, refl, ap, sym, arith, inl, inr, Bool, true, false, ◌&&◌, ◌==◌, ◌||◌, List, [], ◌∷◌,
  ◌++◌, map, Bytes, bytes_eq, bytes_eq_sound, bytes_eq_refl, if◌then◌else◌, Bool-cases, count,
  count-append, ◌∙◌,
}

abbrev pub CallbackMap : Type 0
CallbackMap = List (Bytes × List ℕ)

-- A callback and the channel it is called with.
abbrev pub Call : Type 0
Call = Bytes × ℕ

-- `m[channel]`, nil for a missing key.
unfoldable pub callbacks_of : Bytes → CallbackMap → List ℕ
callbacks_of channel [] = []
callbacks_of channel ((key, callbacks) ∷ m) =
    let rest = callbacks_of channel m in if bytes_eq key channel then callbacks else rest

-- `m[channel] = append(m[channel], callback)`
unfoldable pub add_callback : Bytes → ℕ → CallbackMap → CallbackMap
add_callback channel callback [] = (channel, callback ∷ []) ∷ []
add_callback channel callback ((key, callbacks) ∷ m) =
    let rest = add_callback channel callback m in
    if bytes_eq key channel then (key, callbacks ++ callback ∷ []) ∷ m else (key, callbacks) ∷ rest

-- `delete(m, channel)`
unfoldable pub delete_channel : Bytes → CallbackMap → CallbackMap
delete_channel channel [] = []
delete_channel channel ((key, callbacks) ∷ m) =
    let rest = delete_channel channel m in
    if bytes_eq key channel then rest else (key, callbacks) ∷ rest

-- `_, ok := m[channel]`
unfoldable pub has_channel : Bytes → CallbackMap → Bool
has_channel channel [] = false
has_channel channel ((key, callbacks) ∷ m) = bytes_eq key channel || has_channel channel m

abbrev pub calls_on : Bytes → List ℕ → List Call
calls_on channel callbacks = map (λ callback. (channel, callback)) callbacks

-- The nested loops of `close` over the copy of a map.
unfoldable pub calls_of : CallbackMap → List Call
calls_of [] = []
calls_of ((key, callbacks) ∷ m) = calls_on key callbacks ++ calls_of m

-- No channel stands twice, as in every map.
abbrev pub IsMap : CallbackMap → Type 0
IsMap [] = Unit
IsMap ((key, callbacks) ∷ m) = (has_channel key m ≡ false) × IsMap m

-- How often a list has the call of `callback` with `channel`.
abbrev pub is_call : Call → Call → Bool
is_call c d = bytes_eq d.0 c.0 && d.1 == c.1

abbrev pub times : Call → List Call → ℕ
times c = count (is_call c)

pub times-append : (c : Call) (xs ys : List Call) → times c (xs ++ ys) ≡ times c xs + times c ys
times-append c = count-append (is_call c)

-- Taking one call out of a list.
pub times-split :
    (c d : Call) (before after : List Call)
    → times c (before ++ d ∷ after) ≡ times c (before ++ after) + times c (d ∷ [])
times-split c d before after = omega (
  arith,
  times-append c before (d ∷ after),
  times-append c before after,
  times-append c (d ∷ []) after,
)

calls_on-append :
    (channel : Bytes) (xs ys : List ℕ)
    → calls_on channel (xs ++ ys) ≡ calls_on channel xs ++ calls_on channel ys
calls_on-append channel [] ys = refl
calls_on-append channel (x ∷ xs) ys =
    ap (λ (l : List Call). (channel, x) ∷ l) (calls_on-append channel xs ys)

-- Appending a callback adds its call once.
pub times-add :
    (c : Call) (channel : Bytes) (callback : ℕ) (m : CallbackMap)
    → times c (calls_of (add_callback channel callback m))
      ≡ times c (calls_of m) + times c ((channel, callback) ∷ [])
unfolding calls_of add_callback
times-add c channel callback [] = omega arith
times-add c channel callback ((key, callbacks) ∷ m) = elim (Bool-cases (bytes_eq key channel)) [
  | inl e ↦
      rw
        (
          e,
          bytes_eq_sound key channel e,
          calls_on-append channel callbacks (callback ∷ []),
          times-append c (calls_on channel callbacks ++ (channel, callback) ∷ []) (calls_of m),
          times-append c (calls_on channel callbacks) ((channel, callback) ∷ []),
          times-append c (calls_on channel callbacks) (calls_of m),
        )
        (omega arith)
  | inr e ↦
      rw
        (
          e,
          times-append c (calls_on key callbacks) (calls_of (add_callback channel callback m)),
          times-append c (calls_on key callbacks) (calls_of m),
          times-add c channel callback m,
        )
        (omega arith)
]

delete-absent :
    (channel : Bytes) (m : CallbackMap)
    → has_channel channel m ≡ false
    → delete_channel channel m ≡ m
unfolding delete_channel has_channel
delete-absent channel [] h = refl
delete-absent channel ((key, callbacks) ∷ m) h = ground (arith, delete-absent channel m)

-- Deleting a channel takes away the calls of its callbacks, and no other.
pub times-delete :
    (c : Call) (channel : Bytes) (m : CallbackMap)
    → IsMap m
    → times c (calls_of (delete_channel channel m))
        + times c (calls_on channel (callbacks_of channel m))
      ≡ times c (calls_of m)
unfolding calls_of delete_channel callbacks_of
times-delete c channel [] h = omega arith
times-delete c channel ((key, callbacks) ∷ m) (new, h) = elim (Bool-cases (bytes_eq key channel)) [
  | inl e ↦
      let same = bytes_eq_sound key channel e in
      rw
        (
          e,
          same,
          delete-absent channel m (rw (sym same) new),
          times-append c (calls_on channel callbacks) (calls_of m),
        )
        (omega arith)
  | inr e ↦
      rw
        (
          e,
          times-append c (calls_on key callbacks) (calls_of (delete_channel channel m)),
          times-append c (calls_on key callbacks) (calls_of m),
        )
        (omega (arith, times-delete c channel m h))
]

has-add :
    (k channel : Bytes) (callback : ℕ) (m : CallbackMap)
    → bytes_eq channel k ≡ false
    → has_channel k (add_callback channel callback m) ≡ has_channel k m
unfolding has_channel add_callback
has-add k channel callback [] e = rw e refl
has-add k channel callback ((key, callbacks) ∷ m) e =
    ground (arith, has-add k channel callback m e, bytes_eq_sound key channel)

has_channel-empty : (channel : Bytes) → has_channel channel [] ≡ false
unfolding has_channel
has_channel-empty channel = refl

bytes_eq_apart : (a b : Bytes) → bytes_eq a b ≡ false → bytes_eq b a ≡ false
bytes_eq_apart a b h = elim (Bool-cases (bytes_eq b a)) [
  | inl e ↦
      let same : bytes_eq a b ≡ true = rw (bytes_eq_sound b a e) (bytes_eq_refl a) in
      absurd (cc (h, same))
  | inr e ↦ e
]

pub add-IsMap :
    (channel : Bytes) (callback : ℕ) (m : CallbackMap)
    → IsMap m
    → IsMap (add_callback channel callback m)
unfolding add_callback
add-IsMap channel callback [] h = (has_channel-empty channel, tt)
add-IsMap channel callback ((key, callbacks) ∷ m) (new, h) =
    elim (Bool-cases (bytes_eq key channel)) [
      | inl e ↦ rw e (new, h)
      | inr e ↦ rw e (
        has-add key channel callback m (bytes_eq_apart key channel e) ∙ new,
        add-IsMap channel callback m h,
      )
    ]

has-delete_other :
    (k channel : Bytes) (m : CallbackMap)
    → has_channel k m ≡ false
    → has_channel k (delete_channel channel m) ≡ false
unfolding has_channel delete_channel
has-delete_other k channel [] h = refl
has-delete_other k channel ((key, callbacks) ∷ m) h = ground (arith, has-delete_other k channel m)

pub delete-IsMap : (channel : Bytes) (m : CallbackMap) → IsMap m → IsMap (delete_channel channel m)
unfolding delete_channel
delete-IsMap channel [] h = tt
delete-IsMap channel ((key, callbacks) ∷ m) (new, h) = elim (Bool-cases (bytes_eq key channel)) [
  | inl e ↦ rw e (delete-IsMap channel m h)
  | inr e ↦ rw e (has-delete_other key channel m new, delete-IsMap channel m h)
]

pub callbacks_of-delete :
    (channel : Bytes) (m : CallbackMap) → callbacks_of channel (delete_channel channel m) ≡ []
unfolding callbacks_of delete_channel
callbacks_of-delete channel [] = refl
callbacks_of-delete channel ((key, callbacks) ∷ m) = ground (arith, callbacks_of-delete channel m)

pub callbacks_of-delete_other :
    (k channel : Bytes) (m : CallbackMap)
    → bytes_eq channel k ≡ false
    → callbacks_of k (delete_channel channel m) ≡ callbacks_of k m
unfolding callbacks_of delete_channel
callbacks_of-delete_other k channel [] e = refl
callbacks_of-delete_other k channel ((key, callbacks) ∷ m) e =
    ground (arith, callbacks_of-delete_other k channel m e, bytes_eq_sound key channel)

pub callbacks_of-add :
    (channel : Bytes) (callback : ℕ) (m : CallbackMap)
    → callbacks_of channel (add_callback channel callback m)
      ≡ callbacks_of channel m ++ callback ∷ []
unfolding callbacks_of add_callback
callbacks_of-add channel callback [] = rw (bytes_eq_refl channel) refl
callbacks_of-add channel callback ((key, callbacks) ∷ m) =
    ground (arith, callbacks_of-add channel callback m)

pub callbacks_of-add_other :
    (k channel : Bytes) (callback : ℕ) (m : CallbackMap)
    → bytes_eq channel k ≡ false
    → callbacks_of k (add_callback channel callback m) ≡ callbacks_of k m
unfolding callbacks_of add_callback
callbacks_of-add_other k channel callback [] e = rw e refl
callbacks_of-add_other k channel callback ((key, callbacks) ∷ m) e =
    ground (arith, callbacks_of-add_other k channel callback m e, bytes_eq_sound key channel)
