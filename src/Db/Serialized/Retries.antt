-- ===== src/Db/Serialized/Retries.antt =====
-- How often `SerializedTransaction` tries, and what it returns.
use go_sqldb.Prelude.{
  ℕ, zero, suc, ◌<◌, ◌≡◌, inl, inr, true, Bool-cases, Option, none, some, arith, Error,
}
use go_sqldb.Transaction.{World, Outcome, returned, panicked}
use go_sqldb.Db.Context.{Context}
use go_sqldb.Db.Serialized.{is_serialization_failure, retry_error, exhausted}

-- `k` tries in a row from the world `w` that end in the world `v`, all of them with an error that
-- wraps a serialization failure; the last error is kept.
pub data Fails {S : Type 0} (try : World S → Outcome × World S) (w : World S)
    : ℕ → Option Error → World S → Type 0 where
  untried : Fails try w zero none w
  failed :
      {k : ℕ} {last : Option Error} {v v' : World S}
      → Fails try w k last v
      → (out : Outcome) (e : Error) → try v ≡ (out, v')
      → retry_error out ≡ some e
      → Fails try w (suc k) (some e) v'

-- After some failed tries, fewer than `retries`, a try came out otherwise, and its outcome is the
-- result.
abbrev pub Settled :
    {S : Type 0} → (World S → Outcome × World S) → ℕ → World S → Outcome × World S → Type 0
Settled {S} try retries w result =
    (k : ℕ) × (last : Option Error) × (v : World S) × Fails try w k last v
    × (k < retries)
    × (retry_error (try v).0 ≡ none)
    × (result ≡ try v)

-- All tries failed, and the result is an error that wraps the last one.
abbrev pub Exhausted :
    {S : Type 0} → (World S → Outcome × World S) → ℕ → World S → Outcome × World S → Type 0
Exhausted {S} try retries w result =
    (last : Option Error) × (v : World S) × Fails try w retries last v
    × (result ≡ (returned (some (exhausted retries last)), v))

-- The error after `retries` tries, if there was one, is itself a serialization failure for
-- errors.Is, so a caller can tell.
pub exhausted-is_serialization_failure :
    {S : Type 0} {try : World S → Outcome × World S} {w : World S} {n : ℕ} {last : Option Error}
    {v : World S}
    → Fails try w (suc n) last v
    → is_serialization_failure (exhausted (suc n) last) ≡ true
unfolding is_serialization_failure
exhausted-is_serialization_failure (failed fails out e t r) = retried out e r
  where
    retried :
        (out : Outcome) (e : Error) → retry_error out ≡ some e → is_serialization_failure e ≡ true
    retried (returned none) e r = cc
    retried (returned (some x)) e r = elim (Bool-cases (is_serialization_failure x)) [
      | inl yes_x ↦ ground (arith)
      | inr no_x ↦ ground (arith)
    ]
    retried (panicked p) e r = cc
