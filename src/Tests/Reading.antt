-- ===== src/Tests/Reading.antt =====
-- Reading rows of one column of numbers, from a list that the state holds.
use go_sqldb.Prelude.{
  ℕ, ◌+◌, ◌≡◌, refl, length, true, false, Bool, List, [], ◌∷◌, Option, none, some, Bytes, codes,
  arith, ◌<◌, ap,
}
use go_sqldb.Value.{Value, string}
use go_sqldb.Errors.{DbError}
use go_sqldb.Query.{
  Reply, got, failed, Querier, ℤ, query_rows_as_slice, query_rows_as_map_slice, check_columns,
  scan_as, row_limit,
}
use go_sqldb.Query.ℤ.{pos, negsuc}
use go_sqldb.Query.Outcome.{nothing_read, row_read}
use go_sqldb.Query.Finish.{IsFinished}
use go_sqldb.Query.Answer.{Answer, query_rows_as_slice-Answer}
use go_sqldb.Query.Complete.{query_rows_as_slice-all}
use go_sqldb.Query.Single.{
  Destination, other_pointers, query_row_as_or, query_row_struct, KeyedQuery, KeyedStruct,
}
use go_sqldb.Query.Single.Default.{query_row_as_or-missing}
use go_sqldb.Query.Single.Keyed.{IsKeyed, filled, query_row_struct-IsKeyed}
use go_sqldb.Query.Callback.{FuncType, query_callback}
use go_sqldb.Query.Callback.Ends.{IsCalled, IsFinite, query_callback-Ends}

pub record Feed : Type 0 where
  pub ahead : List ℕ
  pub current : ℕ
  pub seen : List ℕ
  pub closes : ℕ

abbrev advance : List ℕ → Feed → Bool × Feed
advance [] s = (false, s)
advance (n ∷ ns) s = (true, record s { ahead = ns; current = n })

abbrev feed : Querier Feed (Unit {0}) ℕ
feed = record {
  query = λ query args s. (tt, s);
  columns = λ h s. got (codes "n" ∷ []);
  next = λ h s. advance s.ahead s;
  err = λ h s. none;
  close = λ h s. (none, record s { closes = s.closes + 1 });
  context_err = λ s. none;
}

abbrev scan_number : Unit {0} → Feed → Reply ℕ ℕ × Feed
scan_number h s = (got s.current, s)

abbrev scan_fields : List Bytes → Unit {0} → Feed → Reply ℕ ℕ × Feed
scan_fields columns h s = (got s.current, s)

abbrev fed : List ℕ → ℕ → Feed
fed ns n = record { ahead = ns; current = n; seen = []; closes = 0 }

query_rows_as_slice-Answer_example :
    (r : (List ℕ × Option (DbError ℕ)) × Feed) × (e : Option (DbError ℕ)) × (u : Feed)
    × (query_rows_as_slice feed false scan_fields scan_number
          (negsuc 0)
          (codes "Q")
          []
          (fed (4 ∷ 5 ∷ []) 0)
        ≡ some ((r.0.0, e), u))
    × IsFinished feed tt (codes "Q") r.1 r.0.1 (e, u)
    × Answer feed
        (check_columns false)
        (scan_as false scan_fields scan_number)
        (negsuc 0)
        tt
        (fed (4 ∷ 5 ∷ []) 0)
        r
query_rows_as_slice-Answer_example =
    query_rows_as_slice-Answer feed (negsuc 0) (codes "Q") [] (fed (4 ∷ 5 ∷ []) 0) false scan_fields
      scan_number

query_rows_as_slice-all_example :
    (e : Option (DbError ℕ)) × (v : Feed) × (query_rows_as_slice feed false scan_fields scan_number
        (pos 2)
        (codes "Q")
        []
        (fed (4 ∷ 5 ∷ []) 0)
      ≡ some ((4 ∷ 5 ∷ [], e), v))
    × IsFinished feed tt (codes "Q") (fed [] 5) none (e, v)
unfolding row_limit
query_rows_as_slice-all_example =
    query_rows_as_slice-all feed false scan_fields scan_number (pos 2) (codes "Q") []
      (codes "n" ∷ []) (4 ∷ 5 ∷ []) (fed (4 ∷ 5 ∷ []) 0) (fed (4 ∷ 5 ∷ []) 0) (fed [] 5) (fed [] 5)
      tt refl refl refl (row_read refl refl refl (row_read refl refl refl nothing_read)) refl
      (omega arith)

query_row_as_or-missing_example :
    query_row_as_or feed scan_fields scan_number 0 9 other_pointers (codes "Q") [] (fed [] 0)
    ≡ ((9, none), record (fed [] 0) { closes = 1 })
query_row_as_or-missing_example =
    query_row_as_or-missing feed scan_fields scan_number 0 9 other_pointers (codes "Q") []
      (fed [] 0) (fed [] 0) (fed [] 0) tt refl refl refl refl refl

-- A struct with one key, whose query is the key's name.
abbrev keyed : KeyedStruct ℕ
keyed = record {
  table_name = got (codes "t");
  primary_key_columns = got (codes "id" ∷ []);
  query_row_with_pk = λ table columns. got table;
}

abbrev cached : KeyedQuery
cached = record { query = codes "t"; num_pk_columns = 1 }

abbrev key : List Value
key = string (codes "1") ∷ []

query_row_struct-IsKeyed_example :
    ((query_row_struct feed scan_fields scan_number other_pointers keyed 0
        (some cached)
        key
        (fed (4 ∷ []) 0)).0.0
      ≡ (query_row_struct feed scan_fields scan_number other_pointers keyed 0 none key
          (fed (4 ∷ []) 0)).0.0)
    × ((query_row_struct feed scan_fields scan_number other_pointers keyed 0
          (some cached)
          key
          (fed (4 ∷ []) 0)).1
        ≡ (query_row_struct feed scan_fields scan_number other_pointers keyed 0 none key
            (fed (4 ∷ []) 0)).1)
    × IsKeyed keyed
        (query_row_struct feed scan_fields scan_number other_pointers keyed 0
          (some cached)
          key
          (fed (4 ∷ []) 0)).0.1
unfolding go_sqldb.Query.Single.keyed_query
query_row_struct-IsKeyed_example =
    query_row_struct-IsKeyed feed scan_fields scan_number other_pointers keyed 0 (some cached)
      (filled 1 refl) key (fed (4 ∷ []) 0)

-- A callback with a context and a number.
abbrev number_func : FuncType
number_func = record {
  is_func = true;
  is_variadic = false;
  ins =
      record { is_context = true; is_struct = false; is_chan_or_func = false }
      ∷ record { is_context = false; is_struct = false; is_chan_or_func = false }
      ∷ [];
  outs = true ∷ [];
}

abbrev see : ℕ → Feed → Option (DbError ℕ) × Feed
see n s = (none, record s { seen = n ∷ s.seen })

abbrev ahead_of : Feed → ℕ
ahead_of s = length s.ahead

advance_takes : (ns : List ℕ) (s t : Feed) → advance ns s ≡ (true, t) → length t.ahead < length ns
advance_takes [] s t e = absurd cc
advance_takes (n ∷ ns) s t e =
    let h : ns ≡ t.ahead = ap (λ r. r.1.ahead) e in omega (arith, ap length h)

feed-IsFinite : IsFinite feed see scan_number tt ahead_of
feed-IsFinite = record {
  next_takes = λ s t n. advance_takes s.ahead s t n;
  scan_keeps = λ s. omega arith;
  callback_keeps = λ row s. omega arith;
}

query_callback-Ends_example :
    (r x : Option (DbError ℕ) × Feed) × (query_callback feed see number_func scan_fields scan_number
        3
        (codes "Q")
        []
        (fed (4 ∷ 5 ∷ []) 0)
      ≡ some x)
    × IsFinished feed tt (codes "Q") r.1 r.0 x
    × IsCalled feed see scan_number tt (fed (4 ∷ 5 ∷ []) 0) r
unfolding go_sqldb.Query.Callback.callback_error go_sqldb.Query.Callback.scanned_args
    go_sqldb.Query.Callback.args_allowed
query_callback-Ends_example =
    query_callback-Ends feed see (codes "Q") [] (fed (4 ∷ 5 ∷ []) 0) (fed (4 ∷ 5 ∷ []) 0) tt
      (codes "n" ∷ []) number_func scan_fields scan_number refl refl refl refl ahead_of
      feed-IsFinite 3 (omega arith)
