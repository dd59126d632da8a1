-- ===== src/Query/Single/Keyed.antt =====
-- The cache of `QueryRowStruct` of query.go.
use go_sqldb.Prelude.{
  refl, ℕ, ◌==◌, Option, none, some, ◌≡◌, arith, if◌then◌else◌, List, Bytes, length, inl, inr,
  Bool-cases,
}
use go_sqldb.Query.{got, failed, Querier, Reply, Value, Reply-cases}
use go_sqldb.Query.Single.{
  KeyedQuery, KeyedStruct, keyed_query, wrong_number_of_keys, Destination, query_row_struct,
}

module _ {D : Type 0} (k : KeyedStruct D) where
  -- The slot is empty, or a call with the right number of keys has filled it.
  pub data IsKeyed : Option KeyedQuery → Type 0 where
    empty : IsKeyed none
    filled :
        (num_keys : ℕ) {cached : KeyedQuery}
        → keyed_query k num_keys ≡ got cached
        → IsKeyed (some cached)

  -- Both ways of the function agree on what they do with the cached query of `m` keys for `n` keys.
  keyed_query-cached :
      (m n : ℕ) (cached : KeyedQuery)
      → keyed_query k m ≡ got cached
      → keyed_query k n
        ≡ (if cached.num_pk_columns == n then got cached else failed wrong_number_of_keys)
  unfolding keyed_query
  keyed_query-cached m n cached h = ground arith

module _ {S H D : Type 0} (q : Querier S H D) {T : Type 0}
    (scan_struct : List Bytes → H → S → Reply D T × S) (scan_value : H → S → Reply D T × S)
    (dest : Destination) (k : KeyedStruct D) (zero_value : T) where
  -- With a slot of the cache that is empty or that a call has filled, `QueryRowStruct` returns what
  -- it returns with an empty slot, the database changes alike, and the slot after it is again empty
  -- or filled by a call.
  pub query_row_struct-IsKeyed :
      (slot : Option KeyedQuery)
      → IsKeyed k slot
      → (pk_values : List Value) (s : S)
      → let r = query_row_struct q scan_struct scan_value dest k zero_value slot pk_values s in
        let r' = query_row_struct q scan_struct scan_value dest k zero_value none pk_values s in
        (r.0.0 ≡ r'.0.0) × (r.1 ≡ r'.1) × IsKeyed k r.0.1
  unfolding query_row_struct
  query_row_struct-IsKeyed none empty pk_values s =
      elim (Reply-cases (keyed_query k (length pk_values))) [
        | inl (cached, h) ↦ (refl, refl, rw (query_row_struct, h) (filled (length pk_values) h))
        | inr (e, h) ↦ (refl, refl, rw (query_row_struct, h) empty)
      ]
  query_row_struct-IsKeyed (some cached) (filled m h) pk_values s =
      let c = keyed_query-cached k m (length pk_values) cached h in
      elim (Bool-cases (cached.num_pk_columns == length pk_values)) [
        | inl b ↦ simp (query_row_struct, b, c) (refl, refl, filled m h)
        | inr b ↦ simp (query_row_struct, b, c) (refl, refl, filled m h)
      ]
