-- ===== src/Query/Single.antt =====
-- A single row: `Row` of row.go, and the functions `QueryRow…` of query.go.
pub mod Default
pub mod Keyed
use go_sqldb.Prelude.{
  ℕ, ◌==◌, length, Bool, true, false, List, [], ◌∷◌, Option, none, some, Bytes, if◌then◌else◌,
}
use go_sqldb.Value.{Value}
use go_sqldb.Errors.{DbError, no_rows, other_error, wrap_error_with_query, is_error, is_no_rows}
use go_sqldb.Query.{
  Reply, got, failed, Querier, closed, no_destination, destination_no_pointer, destination_nil,
  row_map,
}

-- What `Row.Scan` is called with: no destination, a single one that is no pointer, that is nil or
-- that points to a struct which is no `sql.Scanner`, or any other destinations.
pub data Destination : Type 0 where
  none_given not_pointer nil_pointer struct_pointer other_pointers : Destination

abbrev pub destination_error : {D : Type 0} → Destination → Option (DbError D)
destination_error none_given = some no_destination
destination_error not_pointer = some destination_no_pointer
destination_error nil_pointer = some destination_nil
destination_error struct_pointer = none
destination_error other_pointers = none

-- `errors.New` and `fmt.Errorf` of `QueryRowStruct`.
abbrev pub no_primary_key_fields : {D : Type 0} → DbError D
no_primary_key_fields = other_error 5

abbrev pub wrong_number_of_keys : {D : Type 0} → DbError D
wrong_number_of_keys = other_error 6

-- `errors.Is(err, sql.ErrNoRows)` gives the default.
abbrev pub or_default :
    {S T D : Type 0} → T → (T × Option (DbError D)) × S → (T × Option (DbError D)) × S
or_default default_val ((val, none), s) = ((val, none), s)
or_default default_val ((val, some e), s) =
    if is_error is_no_rows e then ((default_val, none), s) else ((val, some e), s)

module _ {S H D : Type 0} (q : Querier S H D) where
  -- The test of `Err`, then `Next`, then what is done with the row.
  unfoldable pub first_row :
      {A : Type 0}
      → (S → (Option A × Option (DbError D)) × S)
      → H
      → S
      → (Option A × Option (DbError D)) × S
  first_row with_row h s = elim (q.err h s) [
    | some e ↦ ((none, some e), s)
    | none ↦
        let (more, t) = q.next h s in
        elim more [
          | true ↦ with_row t
          | false ↦ elim (q.err h t) [
            | some e ↦ ((none, some e), t)
            | none ↦ ((none, some no_rows), t)
          ]
        ]
  ]

  abbrev pub replied : {A : Type 0} → Reply D A × S → (Option A × Option (DbError D)) × S
  replied (got a, s) = ((some a, none), s)
  replied (failed e, s) = ((none, some e), s)

  module _ {T : Type 0} (scan_struct : List Bytes → H → S → Reply D T × S)
      (scan_value : H → S → Reply D T × S) where
    abbrev pub scan_row : Destination → H → S → (Option T × Option (DbError D)) × S
    scan_row struct_pointer h s = elim (q.columns h s) [
      | failed e ↦ ((none, some e), s)
      | got columns ↦ replied (scan_struct columns h s)
    ]
    scan_row _ h s = replied (scan_value h s)

    -- `Row.Scan`, with the value that it has scanned.
    unfoldable pub row_scan : Destination → H → Bytes → S → (Option T × Option (DbError D)) × S
    row_scan dest h query s = closed q h query (elim (destination_error dest) [
      | some e ↦ ((none, some e), s)
      | none ↦ first_row (scan_row dest h) h s
    ])

    -- `QueryRowAs`; the zero value of the type is the first argument.
    unfoldable pub query_row_as :
        T → Destination → Bytes → List Value → S → (T × Option (DbError D)) × S
    query_row_as zero_value dest query args s =
        let (h, t) = q.query query args s in
        let ((val, e), u) = row_scan dest h query t in
        elim e [
          | some e ↦ ((zero_value, some e), u)
          | none ↦ ((elim val [ none ↦ zero_value | some v ↦ v ], none), u)
        ]

    -- `QueryRowAsOr`
    unfoldable pub query_row_as_or :
        T → T → Destination → Bytes → List Value → S → (T × Option (DbError D)) × S
    query_row_as_or zero_value default_val dest query args s =
        or_default default_val (query_row_as zero_value dest query args s)

  -- `Row.Columns`
  unfoldable pub row_columns : H → Bytes → S → Reply D (List Bytes)
  row_columns h query s = elim (q.columns h s) [
    | got columns ↦ got columns
    | failed e ↦ elim (wrap_error_with_query (some e) query) [ none ↦ got [] | some e ↦ failed e ]
  ]

  -- `Row.ScanStrings`; an error of `Columns` returns before the rows are closed. The destinations
  -- are pointers to strings, none if there is no column.
  abbrev string_destinations : List Bytes → Destination
  string_destinations [] = none_given
  string_destinations (c ∷ columns) = other_pointers

  unfoldable pub row_scan_strings :
      (H → S → Reply D (List Bytes) × S)
      → H
      → Bytes
      → S
      → (Option (List Bytes) × Option (DbError D)) × S
  row_scan_strings scan h query s = elim (row_columns h query s) [
    | failed e ↦ ((none, some e), s)
    | got columns ↦
        let ((vals, e), t) =
          row_scan (λ columns. scan) scan (string_destinations columns) h query s in
        elim e [ some e ↦ ((none, some e), t) | none ↦ ((vals, none), t) ]
  ]

  unfoldable pub query_row_as_strings :
      (H → S → Reply D (List Bytes) × S)
      → Bytes
      → List Value
      → S
      → (Option (List Bytes) × Option (DbError D)) × S
  query_row_as_strings scan query args s =
      let (h, t) = q.query query args s in row_scan_strings scan h query t

  -- The names of the columns, and the row.
  unfoldable pub query_row_as_strings_with_header :
      (H → S → Reply D (List Bytes) × S)
      → Bytes
      → List Value
      → S
      → (Option (List (List Bytes)) × Option (DbError D)) × S
  query_row_as_strings_with_header scan query args s =
      let (h, t) = q.query query args s in
      elim (row_columns h query t) [
        | failed e ↦ ((none, some e), t)
        | got columns ↦
            let ((vals, e), u) = row_scan_strings scan h query t in
            elim e [
              | some e ↦ ((none, some e), u)
              | none ↦
                  let row : List Bytes = elim vals [ none ↦ [] | some v ↦ v ] in
                  ((some (columns ∷ row ∷ []), none), u)
            ]
      ]

  unfoldable pub query_row_as_map :
      {V : Type 0}
      → (H → S → Reply D (List V) × S)
      → Bytes
      → List Value
      → S
      → (Option (List (Bytes × V)) × Option (DbError D)) × S
  query_row_as_map scan query args s =
      let (h, t) = q.query query args s in
      closed q h query (
        first_row
          (λ u. elim (q.columns h u) [
            | failed e ↦ ((none, some e), u)
            | got columns ↦
                let (r, v) = scan h u in
                elim r [
                  | failed e ↦ ((none, some e), v)
                  | got vals ↦ ((some (row_map none columns vals []), none), v)
                ]
          ])
          h t)

-- `queryRowStructCacheEntry`
pub record KeyedQuery : Type 0 where
  pub query : Bytes
  pub num_pk_columns : ℕ

-- What the reflector says of the struct type, and the query that the builder writes.
pub record KeyedStruct (D : Type 0) : Type 0 where
  pub table_name : Reply D Bytes
  pub primary_key_columns : Reply D (List Bytes)
  pub query_row_with_pk : Bytes → List Bytes → Reply D Bytes

-- The part of `QueryRowStruct` that makes the query without the cache, for a number of keys.
module _ {D : Type 0} (k : KeyedStruct D) where
  abbrev some_keys : ℕ → Bytes → List Bytes → Reply D KeyedQuery
  some_keys num_keys table [] = failed no_primary_key_fields
  some_keys num_keys table (c ∷ columns) =
      if length (c ∷ columns) == num_keys
      then elim (k.query_row_with_pk table (c ∷ columns)) [
        | failed e ↦ failed e
        | got query ↦ got (record { query = query; num_pk_columns = length (c ∷ columns) })
      ]
      else failed wrong_number_of_keys

  unfoldable pub keyed_query : ℕ → Reply D KeyedQuery
  keyed_query num_keys = elim k.table_name [
    | failed e ↦ failed e
    | got table ↦ elim k.primary_key_columns [
      | failed e ↦ failed e
      | got columns ↦ some_keys num_keys table columns
    ]
  ]

module _ {S H D : Type 0} (q : Querier S H D) {T : Type 0}
    (scan_struct : List Bytes → H → S → Reply D T × S) (scan_value : H → S → Reply D T × S)
    (dest : Destination) (k : KeyedStruct D) (zero_value : T) where
  abbrev pub run_keyed : Bytes → List Value → S → (T × Option (DbError D)) × S
  run_keyed query pk_values s =
      query_row_as q scan_struct scan_value zero_value dest query pk_values s

  -- `QueryRowStruct`, with the slot of its cache.
  unfoldable pub query_row_struct :
      Option KeyedQuery → List Value → S → ((T × Option (DbError D)) × Option KeyedQuery) × S
  query_row_struct slot pk_values s = elim slot [
    | some cached ↦
        if cached.num_pk_columns == length pk_values
        then (let (r, t) = run_keyed cached.query pk_values s in ((r, some cached), t))
        else (((zero_value, some wrong_number_of_keys), some cached), s)
    | none ↦ elim (keyed_query k (length pk_values)) [
      | failed e ↦ (((zero_value, some e), none), s)
      | got cached ↦ (let (r, t) = run_keyed cached.query pk_values s in ((r, some cached), t))
    ]
  ]

  -- `QueryRowStructOr`
  unfoldable pub query_row_struct_or :
      T → Option KeyedQuery → List Value → S → ((T × Option (DbError D)) × Option KeyedQuery) × S
  query_row_struct_or default_val slot pk_values s =
      let ((r, slot'), t) = query_row_struct slot pk_values s in
      let (r', u) = or_default default_val (r, t) in ((r', slot'), u)
