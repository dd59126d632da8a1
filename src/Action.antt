-- ===== src/Action.antt =====
-- Functions that act on the world and may return an error. What was done before the error stays.
use go_sqldb.Prelude.{Option, none, some, Error, Result, ok, err}
use go_sqldb.Transaction.{World, Outcome, returned}

abbrev pub Action : Type 0 → Type 0 → Type 0
Action S A = World S → Result A × World S

abbrev pub continue : {S A B : Type 0} → (A → Action S B) → Result A × World S → Result B × World S
continue f (ok a, w) = f a w
continue f (err e, w) = (err e, w)

infixl 5 ◌>>=◌ ◌>>◌
abbrev pub ◌>>=◌ : {S A B : Type 0} → Action S A → (A → Action S B) → Action S B
◌>>=◌ m f w = continue f (m w)

abbrev pub ◌>>◌ : {S B : Type 0} → Action S (Unit {0}) → Action S B → Action S B
m >> n = m >>= λ _. n

abbrev pub pure : {S A : Type 0} → A → Action S A
pure a w = (ok a, w)

abbrev pub lift : {S A : Type 0} → Result A → Action S A
lift r w = (r, w)

-- A Go function whose only result is an error.
abbrev pub of_error : Option Error → Result (Unit {0})
of_error none = ok tt
of_error (some e) = err e

abbrev pub to_error : Result (Unit {0}) → Option Error
to_error (ok _) = none
to_error (err e) = some e

-- An operation of the store as an action.
abbrev pub on_store : {S A : Type 0} → (S → Result A × S) → Action S A
on_store f w = let (r, s) = f w.store in (r, record w { store = s })

abbrev pub check_store : {S : Type 0} → (S → Option Error × S) → Action S (Unit {0})
check_store f w = let (e, s) = f w.store in (of_error e, record w { store = s })

-- An action as the body of a transaction.
abbrev pub as_outcome : {S : Type 0} → Action S (Unit {0}) → World S → Outcome × World S
as_outcome m w = let (r, w') = m w in (returned (to_error r), w')
