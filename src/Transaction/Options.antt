-- ===== src/Transaction/Options.antt =====
-- Which transaction options a running transaction grants to a nested one.
use go_sqldb.Prelude.{ℕ, ◌≤◌, ◌≡◌, ◌↔◌, true, Option, none, arith}
use go_sqldb.Transaction.{TxOptions, isolation_of, read_only_of, check_tx_options_compatibility}

-- The parent is as strict as the child: it writes where the child does, and its isolation level,
-- the default level of the connection where none is asked for, is not below the child's.
abbrev pub IsCompatible : Option TxOptions → Option TxOptions → ℕ → Type 0
IsCompatible parent child default_isolation =
    (read_only_of parent ≡ true → read_only_of child ≡ true)
    × (isolation_of default_isolation child ≤ isolation_of default_isolation parent)

compatible :
    (parent child : Option TxOptions) (default_isolation : ℕ)
    → check_tx_options_compatibility parent child default_isolation ≡ none
    → IsCompatible parent child default_isolation
unfolding check_tx_options_compatibility
compatible parent child default_isolation h = (λ p. ground arith, ground arith)

accepted :
    (parent child : Option TxOptions) (default_isolation : ℕ)
    → IsCompatible parent child default_isolation
    → check_tx_options_compatibility parent child default_isolation ≡ none
unfolding check_tx_options_compatibility
accepted parent child default_isolation (ro, iso) = ground arith

-- CheckTxOptionsCompatibility accepts a child's options exactly if a read-only parent has a
-- read-only child, and the child's isolation level is at most the parent's, where no options and
-- the default level both stand for the connection's default level.
pub check_tx_options_compatibility-IsCompatible :
    (parent child : Option TxOptions) (default_isolation : ℕ)
    → (check_tx_options_compatibility parent child default_isolation ≡ none)
      ↔ IsCompatible parent child default_isolation
check_tx_options_compatibility-IsCompatible parent child default_isolation =
    (compatible parent child default_isolation, accepted parent child default_isolation)

-- Nesting is transitive: what a nested transaction grants, the outermost one grants.
pub check_tx_options_compatibility_trans :
    (outer middle inner : Option TxOptions) (default_isolation : ℕ)
    → check_tx_options_compatibility outer middle default_isolation ≡ none
    → check_tx_options_compatibility middle inner default_isolation ≡ none
    → check_tx_options_compatibility outer inner default_isolation ≡ none
check_tx_options_compatibility_trans outer middle inner default_isolation h k =
    let (ro, iso) = compatible outer middle default_isolation h in
    let (ro', iso') = compatible middle inner default_isolation k in
    accepted outer inner default_isolation (λ p. ro' (ro p), omega arith)
