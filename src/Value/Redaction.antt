-- ===== src/Value/Redaction.antt =====
-- Values and argument lists that differ in the wrapped secrets only are formatted alike.
use go_sqldb.Prelude.{◌≡◌, refl, List, [], ◌∷◌, Bytes}
use go_sqldb.Value.{Value, secret, valuer, pointer, format_value}

-- The same value, but for what stands inside secrets.
pub data SameOutside : Value → Value → Type 0 where
  hidden : (shown : Bytes) (v w : Value) → SameOutside (secret shown v) (secret shown w)
  same : (v : Value) → SameOutside v v
  in_valuer : {v w : Value} → SameOutside v w → SameOutside (valuer v) (valuer w)
  in_pointer : {v w : Value} → SameOutside v w → SameOutside (pointer v) (pointer w)

pub data AllSameOutside : List Value → List Value → Type 0 where
  no_args : AllSameOutside [] []
  more_args :
      {v w : Value} {vs ws : List Value}
      → SameOutside v w
      → AllSameOutside vs ws
      → AllSameOutside (v ∷ vs) (w ∷ ws)

pub format_value-SameOutside : {v w : Value} → SameOutside v w → format_value v ≡ format_value w
unfolding format_value
format_value-SameOutside (hidden shown v w) = refl
format_value-SameOutside (same v) = refl
format_value-SameOutside (in_valuer h) = format_value-SameOutside h
format_value-SameOutside (in_pointer h) = format_value-SameOutside h
