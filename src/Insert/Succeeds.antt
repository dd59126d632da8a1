-- ===== src/Insert/Succeeds.antt =====
-- What a function of Action has done when it returns no error: its parts returned none.
use go_sqldb.Prelude.{◌≡◌, refl, Option, none, some, Error, Result, ok, err}
use go_sqldb.Transaction.{World, returned}
use go_sqldb.Action.{Action, continue, of_error, to_error, as_outcome}
use go_sqldb.Insert.{renamed, join_errors}
use go_sqldb.Insert.Run.{wrapped}

pub continue-ok :
    {S A B : Type 0} (f : A → Action S B) (p : Result A × World S) {b : B}
    → (continue f p).0 ≡ ok b
    → (a : A) × (p.0 ≡ ok a) × (continue f p ≡ f a p.1)
continue-ok f (ok a, w) h = (a, refl, refl)
continue-ok f (err e, w) h = absurd cc

pub renamed-ok :
    {A : Type 0} (wrap : Error → Error) (r : Result A) {a : A} → renamed wrap r ≡ ok a → r ≡ ok a
renamed-ok wrap (ok a) h = h
renamed-ok wrap (err e) h = absurd cc

pub wrapped-ok :
    (wrap : Error → Error) (e : Option Error) → of_error (wrapped wrap e) ≡ ok tt → e ≡ none
wrapped-ok wrap none h = refl
wrapped-ok wrap (some e) h = absurd cc

pub join_errors-ok :
    (r : Result (Unit {0})) (e : Option Error)
    → of_error (join_errors (to_error r) e) ≡ ok tt
    → (r ≡ ok tt) × (e ≡ none)
join_errors-ok (ok tt) none h = (refl, refl)
join_errors-ok (ok tt) (some e) h = absurd cc
join_errors-ok (err e) none h = absurd cc
join_errors-ok (err e) (some e') h = absurd cc

pub as_outcome-ok :
    {S : Type 0} (m : Action S (Unit {0})) (w : World S)
    → (as_outcome m w).0 ≡ returned none
    → (m w).0 ≡ ok tt
as_outcome-ok m w = from_outcome (m w).0
  where
    from_outcome : (r : Result (Unit {0})) → returned (to_error r) ≡ returned none → r ≡ ok tt
    from_outcome (ok tt) h = refl
    from_outcome (err e) h = absurd cc
