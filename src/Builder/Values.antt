-- ===== src/Builder/Values.antt =====
-- `Values.SortedColumnsAndValues` of values.go. A map has no order: its entries stand in the order
-- of some iteration.
pub mod Order
use go_sqldb.Prelude.{
  Bool, true, false, List, [], ◌∷◌, map, Bytes, ltb, ◌==◌, bytes_eq, if◌then◌else◌,
}
use go_sqldb.Value.{Value, nil}
use go_sqldb.Builder.{ColumnInfo, Values}

-- `cmp.Compare(a, b) < 0` on strings.
pub less : Bytes → Bytes → Bool
less [] [] = false
less [] (d ∷ b) = true
less (c ∷ a) [] = false
less (c ∷ a) (d ∷ b) = if ltb c d then true else if c == d then less a b else false

pub insert_sorted : ColumnInfo → List ColumnInfo → List ColumnInfo
unfolding less
insert_sorted c [] = c ∷ []
insert_sorted c (d ∷ ds) =
    let later = insert_sorted c ds in if less d.name c.name then d ∷ later else c ∷ d ∷ ds

pub sort_columns : List ColumnInfo → List ColumnInfo
unfolding insert_sorted
sort_columns [] = []
sort_columns (c ∷ cs) = insert_sorted c (sort_columns cs)

-- `v[name]`, nil for a missing key.
pub lookup : Values → Bytes → Value
lookup [] name = nil
lookup ((key, value) ∷ v) name = if bytes_eq key name then value else lookup v name

abbrev pub column_of : Bytes × Value → ColumnInfo
column_of (name, value) = record {
  name = name;
  type = [];
  primary_key = false;
  has_default = false;
  read_only = false;
  generated = false;
}

unfoldable pub sorted_columns_and_values : Values → List ColumnInfo × List Value
unfolding sort_columns lookup
sorted_columns_and_values v =
    let columns = sort_columns (map column_of v) in (columns, map (λ c. lookup v c.name) columns)
