-- ===== src/Query.antt =====
-- Reading rows: query.go with `Row` of row.go. The connection, its `Rows` and the context are a
-- parameter, with how a row is scanned into a value of the caller's type. A Go function that returns
-- a value and an error returns both here; the loops have fuel, and return nothing when it runs out.
pub mod Outcome
pub mod Finish
pub mod Answer
pub mod Complete
pub mod Single
pub mod Callback
use go_sqldb.Prelude.{
  ℕ, zero, suc, ◌+◌, leb, length, Bool, true, false, not, ◌&&◌, List, [], ◌∷◌, ◌++◌, Option, none,
  some, Bytes, bytes_eq, if◌then◌else◌, ◌≡◌, refl, ◌⊎◌, inl, inr,
}
use go_sqldb.Value.{Value}
use go_sqldb.Errors.{
  DbError, no_rows, max_num_rows_exceeded, other_error, joined, wrap_error_with_query, is_error,
  is_no_rows,
}

-- A Go `int` argument.
pub data ℤ : Type 0 where
  pos : ℕ → ℤ
  negsuc : ℕ → ℤ

-- What a function of Go returns that gives a value or an error.
pub data Reply (D A : Type 0) : Type 0 where
  got : A → Reply D A
  failed : DbError D → Reply D A

pub Reply-cases :
    {D A : Type 0} (r : Reply D A) → ((a : A) × (r ≡ got a)) ⊎ ((e : DbError D) × (r ≡ failed e))
Reply-cases (got a) = inl (a, refl)
Reply-cases (failed e) = inr (e, refl)

-- `Querier.Query` and the methods of `Rows`, on the state `S` of the database, with the error of
-- the context, which may end at any time. `H` is the type of rows.
pub record Querier (S H D : Type 0) : Type 0 where
  pub query : Bytes → List Value → S → H × S
  pub columns : H → S → Reply D (List Bytes)
  pub next : H → S → Bool × S
  pub err : H → S → Option (DbError D)
  pub close : H → S → Option (DbError D) × S
  pub context_err : S → Option (DbError D)

-- The errors that query.go and row.go make with `fmt.Errorf` and `errors.New`.
abbrev pub too_many_columns : {D : Type 0} → DbError D
too_many_columns = other_error 1

abbrev pub no_destination : {D : Type 0} → DbError D
no_destination = other_error 2

abbrev pub destination_no_pointer : {D : Type 0} → DbError D
destination_no_pointer = other_error 3

abbrev pub destination_nil : {D : Type 0} → DbError D
destination_nil = other_error 4

-- `errors.Join` of two errors that may be nil.
abbrev pub join_db_errors :
    {D : Type 0} → Option (DbError D) → Option (DbError D) → Option (DbError D)
join_db_errors none e' = e'
join_db_errors (some e) none = some e
join_db_errors (some e) (some e') = some (joined e e')

-- `math.MaxInt` for a negative limit.
unfoldable pub row_limit : ℤ → ℕ
row_limit (pos n) = n
row_limit (negsuc n) = 9223372036854775807

module _ {S H D : Type 0} (q : Querier S H D) where
  -- The deferred function of the queries.
  unfoldable pub closed :
      {A : Type 0} → H → Bytes → (A × Option (DbError D)) × S → (A × Option (DbError D)) × S
  closed h query ((a, e), s) =
      let (e', s') = q.close h s in ((a, wrap_error_with_query (join_db_errors e e') query), s')

  module _ {T : Type 0} (scan : H → S → Reply D T × S) (max_num_rows : ℕ) (h : H) where
    -- The tests of the loop before it scans a row.
    unfoldable pub refusal : List T → S → Option (DbError D)
    refusal rows s =
        if leb max_num_rows (length rows)
        then some (max_num_rows_exceeded max_num_rows)
        else q.context_err s

    unfoldable pub each_row : ℕ → List T → S → Option ((List T × Option (DbError D)) × S)
    each_row zero rows s = none
    each_row (suc fuel) rows s =
        let (more, t) = q.next h s in
        elim more [
          | false ↦ some ((rows, q.err h t), t)
          | true ↦ elim (refusal rows t) [
            | some e ↦ some ((rows, some e), t)
            | none ↦
                let (r, u) = scan h t in
                elim r [
                  | failed e ↦ some ((rows, some e), u)
                  | got row ↦ each_row fuel (rows ++ row ∷ []) u
                ]
          ]
        ]

  module _ {T : Type 0} (check : List Bytes → Option (DbError D))
      (scan : List Bytes → H → S → Reply D T × S) (max_num_rows : ℤ) where
    -- The rows with their columns, behind `Query`.
    unfoldable pub read_rows : H → S → Option ((List T × Option (DbError D)) × S)
    read_rows h s = elim (q.columns h s) [
      | failed e ↦ some (([], some e), s)
      | got columns ↦ elim (check columns) [
        | some e ↦ some (([], some e), s)
        | none ↦
            each_row (scan columns) (row_limit max_num_rows) h (row_limit max_num_rows + 1) [] s
      ]
    ]

    unfoldable pub query_rows : Bytes → List Value → S → Option ((List T × Option (DbError D)) × S)
    query_rows query args s =
        let (h, t) = q.query query args s in
        elim (read_rows h t) [ none ↦ none | some r ↦ some (closed h query r) ]

-- A single column is scanned as a value, the columns of a struct into its fields.
abbrev pub check_columns : {D : Type 0} → Bool → List Bytes → Option (DbError D)
check_columns true columns = none
check_columns false (c ∷ c' ∷ columns) = some too_many_columns
check_columns false _ = none

abbrev pub no_check : {D : Type 0} → List Bytes → Option (DbError D)
no_check columns = none

abbrev pub scan_as :
    {S H D T : Type 0}
    → Bool
    → (List Bytes → H → S → Reply D T × S)
    → (H → S → Reply D T × S)
    → List Bytes
    → H
    → S
    → Reply D T × S
scan_as row_structs scan_struct scan_value columns =
    if row_structs then scan_struct columns else scan_value

module _ {S H D T : Type 0} (q : Querier S H D) where
  unfoldable pub query_rows_as_slice :
      (row_structs : Bool)
      → (List Bytes → H → S → Reply D T × S)
      → (H → S → Reply D T × S)
      → ℤ
      → Bytes
      → List Value
      → S
      → Option ((List T × Option (DbError D)) × S)
  query_rows_as_slice row_structs scan_struct scan_value =
      query_rows q (check_columns row_structs) (scan_as row_structs scan_struct scan_value)

-- `row[col] = v`
abbrev set_key : {V : Type 0} → Bytes → V → List (Bytes × V) → List (Bytes × V)
set_key key v [] = (key, v) ∷ []
set_key key v ((key', v') ∷ m) =
    let rest = set_key key v m in if bytes_eq key key' then (key, v) ∷ m else (key', v') ∷ rest

abbrev converted : {V : Type 0} → Option (V → Option V) → V → V
converted none v = v
converted (some convert) v = elim (convert v) [ none ↦ v | some v' ↦ v' ]

-- The map of a row; of two columns with the same name the later one stays.
abbrev pub row_map :
    {V : Type 0} → Option (V → Option V) → List Bytes → List V → List (Bytes × V) → List (Bytes × V)
row_map converter (c ∷ columns) (v ∷ vals) m =
    row_map converter columns vals (set_key c (converted converter v) m)
row_map converter _ _ m = m

abbrev pub scan_map :
    {S H D V : Type 0}
    → Option (V → Option V)
    → (H → S → Reply D (List V) × S)
    → List Bytes
    → H
    → S
    → Reply D (List (Bytes × V)) × S
scan_map converter scan columns h s =
    let (r, t) = scan h s in
    (elim r [ failed e ↦ failed e | got vals ↦ got (row_map converter columns vals []) ], t)

abbrev pub headed : {D : Type 0} → Reply D (List Bytes) → List (List Bytes) → List (List Bytes)
headed (failed e) rows = rows
headed (got columns) rows = columns ∷ rows

module _ {S H D V : Type 0} (q : Querier S H D) where
  unfoldable pub query_rows_as_map_slice :
      Option (V → Option V)
      → (H → S → Reply D (List V) × S)
      → ℤ
      → Bytes
      → List Value
      → S
      → Option ((List (List (Bytes × V)) × Option (DbError D)) × S)
  query_rows_as_map_slice converter scan = query_rows q no_check (scan_map converter scan)

module _ {S H D : Type 0} (q : Querier S H D) where
  -- The header, then the rows; the limit counts the rows alone.
  unfoldable pub query_rows_as_strings :
      (H → S → Reply D (List Bytes) × S)
      → ℤ
      → Bytes
      → List Value
      → S
      → Option ((List (List Bytes) × Option (DbError D)) × S)
  query_rows_as_strings scan max_num_rows query args s =
      let (h, t) = q.query query args s in
      elim (read_rows q no_check (λ columns. scan) max_num_rows h t) [
        | none ↦ none
        | some r ↦ some (closed q h query ((headed (q.columns h t) r.0.0, r.0.1), r.1))
      ]
