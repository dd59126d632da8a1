-- ===== src/Postgres/Builder.antt =====
-- The `QueryBuilder` of postgres/querybuilder.go, which pqconn and db use.
pub mod Refines
use go_sqldb.Prelude.{
  ℕ, Bool, true, false, not, ◌&&◌, List, [], ◌∷◌, ◌++◌, Bytes, codes, length, take, drop, ◌-◌,
  if◌then◌else◌, Error, requires_non_primary_key, Result, ok, err, ◌>>=◌, ◌==◌,
}
use go_sqldb.Formatter.{QueryFormatter}
use go_sqldb.Builder.{ColumnInfo}
use go_sqldb.Builder.Loops.{write_some}
use go_sqldb.Builder.Std.{insert, has_non_pk, write_assignment}

-- `if strings.HasPrefix(t, "(") && strings.HasSuffix(t, ")") { t = t[1:len(t)-1] }`. Both tests
-- look at one byte, and the slice panics for a text of one byte, which cannot pass both.
abbrev ends_with : ℕ → Bytes → Bool
ends_with b [] = false
ends_with b (c ∷ []) = c == b
ends_with b (c ∷ d ∷ s) = ends_with b (d ∷ s)

abbrev starts_with : ℕ → Bytes → Bool
starts_with b [] = false
starts_with b (c ∷ s) = c == b

unfoldable pub strip_parentheses : Bytes → Bytes
strip_parentheses t =
    if starts_with b'(' t && ends_with b')' t then take (length t - 2) (drop 1 t) else t

unfoldable pub insert_unique : QueryFormatter → Bytes → List ColumnInfo → Bytes → Result Bytes
unfolding strip_parentheses
insert_unique f table columns conflict_target = do
  query ← insert f table columns
  ok (
      query
      ++ (codes " ON CONFLICT (" ++ (strip_parentheses conflict_target ++ codes ") DO NOTHING")))

unfoldable pub upsert : QueryFormatter → Bytes → List ColumnInfo → Result Bytes
upsert f table columns = if not (has_non_pk columns) then err requires_non_primary_key else do
  query ← insert f table columns
  (q, k) ←
      write_some (codes ",") (λ c. c.primary_key) (λ i k c. f.format_column_name c.name) 0 0 true
        columns (query ++ codes " ON CONFLICT (")
  (q, k) ←
      write_some (codes ",") (λ c. not c.primary_key) (λ i k c. write_assignment f i c.name) 0 0
        true columns (q ++ codes ") DO UPDATE SET")
  ok q
