-- ===== src/Query/Callback.antt =====
-- `QueryStructCallback` and `QueryCallback` of query.go: a callback for every row. The rows are
-- read without a limit, so the fuel of the loop has to be more than the rows that are left.
pub mod Ends
use go_sqldb.Prelude.{
  ℕ, zero, suc, ◌==◌, ltb, length, Bool, true, false, not, ◌&&◌, ◌||◌, List, [], ◌∷◌, Option, none,
  some, Bytes, if◌then◌else◌,
}
use go_sqldb.Value.{Value}
use go_sqldb.Errors.{DbError, other_error, wrap_error_with_query}
use go_sqldb.Query.{Reply, got, failed, Querier, join_db_errors}

-- What `reflect` says of a type: whether it is `context.Context`, a struct that is no
-- `sql.Scanner`, or, behind pointers, a channel or a function.
pub record ArgType : Type 0 where
  pub is_context : Bool
  pub is_struct : Bool
  pub is_chan_or_func : Bool

-- The type of a callback; of its results, whether they are errors.
pub record FuncType : Type 0 where
  pub is_func : Bool
  pub is_variadic : Bool
  pub ins : List ArgType
  pub outs : List Bool

-- The errors that the functions make with `fmt.Errorf`.
abbrev pub no_struct_type : {D : Type 0} → DbError D
no_struct_type = other_error 7

abbrev pub no_func : {D : Type 0} → DbError D
no_func = other_error 8

abbrev pub variadic : {D : Type 0} → DbError D
variadic = other_error 9

abbrev pub no_arguments : {D : Type 0} → DbError D
no_arguments = other_error 10

abbrev pub argument_after_struct : {D : Type 0} → DbError D
argument_after_struct = other_error 11

abbrev pub invalid_argument : {D : Type 0} → DbError D
invalid_argument = other_error 12

abbrev pub several_results : {D : Type 0} → DbError D
several_results = other_error 13

abbrev pub result_no_error : {D : Type 0} → DbError D
result_no_error = other_error 14

abbrev pub wrong_number_of_columns : {D : Type 0} → DbError D
wrong_number_of_columns = other_error 15

-- The arguments behind the context.
unfoldable pub scanned_args : List ArgType → List ArgType
scanned_args [] = []
scanned_args (a ∷ args) = if a.is_context then args else a ∷ args

-- The loop over the arguments; only the first may be a struct.
unfoldable pub args_allowed : Bool → List ArgType → Bool
args_allowed is_first [] = true
args_allowed is_first (a ∷ args) =
    let rest = args_allowed false args in
    not (not is_first && a.is_struct) && not a.is_chan_or_func && rest

abbrev pub is_struct_arg : List ArgType → Bool
is_struct_arg [] = false
is_struct_arg (a ∷ args) = a.is_struct

abbrev results_error : {D : Type 0} → List Bool → Option (DbError D)
results_error [] = none
results_error (is_error_type ∷ []) = if is_error_type then none else some result_no_error
results_error (r ∷ r' ∷ outs) = some several_results

abbrev args_error : {D : Type 0} → List ArgType → List Bool → Option (DbError D)
args_error args outs =
    if is_struct_arg args && ltb 1 (length args)
    then some argument_after_struct
    else if args_allowed true args
    then results_error outs
    else some invalid_argument

abbrev no_scanned_args : List ArgType → Bool
no_scanned_args [] = true
no_scanned_args (a ∷ args) = false

-- The checks of `QueryCallback` before it queries, in their order.
unfoldable pub callback_error : {D : Type 0} → FuncType → Option (DbError D)
callback_error f =
    if not f.is_func
    then some no_func
    else if f.is_variadic
    then some variadic
    else if no_scanned_args (scanned_args f.ins)
    then some no_arguments
    else args_error (scanned_args f.ins) f.outs

-- `!structArg && len(columns) != typ.NumIn()-firstArg`
abbrev pub columns_error : {D : Type 0} → List ArgType → List Bytes → Option (DbError D)
columns_error args columns =
    if not (is_struct_arg args) && not (length columns == length args)
    then some wrong_number_of_columns
    else none

module _ {S H D T : Type 0} (q : Querier S H D) (callback : T → S → Option (DbError D) × S) where
  module _ (scan : H → S → Reply D T × S) (h : H) where
    unfoldable pub callback_rows : ℕ → S → Option (Option (DbError D) × S)
    callback_rows zero s = none
    callback_rows (suc fuel) s =
        let (more, t) = q.next h s in
        elim more [
          | false ↦ some (q.err h t, t)
          | true ↦ elim (q.context_err t) [
            | some e ↦ some (some e, t)
            | none ↦
                let (r, u) = scan h t in
                elim r [
                  | failed e ↦ some (some e, u)
                  | got row ↦
                      let (c, v) = callback row u in
                      elim c [ some e ↦ some (some e, v) | none ↦ callback_rows fuel v ]
                ]
          ]
        ]

  -- The rows with their columns, behind `Query`.
  unfoldable pub call_on_rows :
      (List Bytes → Option (DbError D))
      → (List Bytes → H → S → Reply D T × S)
      → ℕ
      → H
      → S
      → Option (Option (DbError D) × S)
  call_on_rows check scan fuel h s = elim (q.columns h s) [
    | failed e ↦ some (some e, s)
    | got columns ↦ elim (check columns) [
      | some e ↦ some (some e, s)
      | none ↦ callback_rows (scan columns) h fuel s
    ]
  ]

  -- The deferred functions: the error of `Close` is joined, then the error is wrapped.
  unfoldable pub query_and_call :
      (List Bytes → Option (DbError D))
      → (List Bytes → H → S → Reply D T × S)
      → ℕ
      → Bytes
      → List Value
      → S
      → Option (Option (DbError D) × S)
  query_and_call check scan fuel query args s =
      let (h, t) = q.query query args s in
      elim (call_on_rows check scan fuel h t) [
        | none ↦ none
        | some r ↦
            let (e', v) = q.close h r.1 in
            some (wrap_error_with_query (join_db_errors r.0 e') query, v)
      ]

  -- `QueryStructCallback`, for a type that is a struct or not.
  unfoldable pub query_struct_callback :
      Bool
      → (List Bytes → H → S → Reply D T × S)
      → ℕ
      → Bytes
      → List Value
      → S
      → Option (Option (DbError D) × S)
  query_struct_callback is_struct scan_struct fuel query args s =
      if is_struct
      then query_and_call (λ columns. none) scan_struct fuel query args s
      else some (wrap_error_with_query (some no_struct_type) query, s)

  -- `QueryCallback`; a row is scanned as a struct or as the callback's arguments.
  unfoldable pub query_callback :
      FuncType
      → (List Bytes → H → S → Reply D T × S)
      → (H → S → Reply D T × S)
      → ℕ
      → Bytes
      → List Value
      → S
      → Option (Option (DbError D) × S)
  query_callback f scan_struct scan_values fuel query args s = elim (callback_error f) [
    | some e ↦ some (wrap_error_with_query (some e) query, s)
    | none ↦
        let params = scanned_args f.ins in
        query_and_call (columns_error params)
          (λ columns. if is_struct_arg params then scan_struct columns else scan_values) fuel query
          args s
  ]
