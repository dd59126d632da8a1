-- ===== src/Formatter/Substitute/Redaction.antt =====
-- What is wrapped by `KeepSecret` has no influence on a query that is formatted for a log.
use go_sqldb.Prelude.{ℕ, ◌+◌, ◌≡◌, refl, List, [], Bytes, Error}
use go_sqldb.Value.{Value, format_value}
use go_sqldb.Value.Redaction.{AllSameOutside, no_args, more_args, format_value-SameOutside}
use go_sqldb.Formatter.Substitute.{
  substitute_uniform, substitute_numbered, substitute_placeholders, replace_first, shown, collect,
}

uniform-AllSameOutside :
    (placeholder : Bytes) {vs ws : List Value} (query : Bytes) (errs : List Error)
    → AllSameOutside vs ws
    → substitute_uniform placeholder vs query errs ≡ substitute_uniform placeholder ws query errs
unfolding substitute_uniform
uniform-AllSameOutside placeholder query errs no_args = refl
uniform-AllSameOutside placeholder query errs (more_args {v = v} {w = w} {vs = vs} {ws = ws} h hs) =
    rw (format_value-SameOutside h) (
      uniform-AllSameOutside placeholder (replace_first placeholder (shown (format_value w)) query)
        (collect (format_value w) errs) hs)

numbered-AllSameOutside :
    (placeholder : ℕ → Bytes) (i : ℕ) {vs ws : List Value} (query : Bytes)
    → AllSameOutside vs ws
    → substitute_numbered placeholder i vs query ≡ substitute_numbered placeholder i ws query
unfolding substitute_numbered
numbered-AllSameOutside placeholder i query no_args = refl
numbered-AllSameOutside placeholder i query (more_args h hs) =
    rw (format_value-SameOutside h, numbered-AllSameOutside placeholder (i + 1) query hs) refl

-- For any placeholders and any query: two argument lists that differ only in the values wrapped by
-- secrets give the same formatted text and the same errors, so neither shows a secret.
pub substitute_placeholders-AllSameOutside :
    (placeholder : ℕ → Bytes) (query : Bytes) {vs ws : List Value}
    → AllSameOutside vs ws
    → substitute_placeholders placeholder query vs ≡ substitute_placeholders placeholder query ws
unfolding substitute_placeholders
substitute_placeholders-AllSameOutside placeholder query no_args = refl
substitute_placeholders-AllSameOutside placeholder query
      (more_args {v = v} {w = w} {vs = vs} {ws = ws} h hs) =
    rw (
      uniform-AllSameOutside (placeholder 0) query [] (more_args h hs),
      numbered-AllSameOutside placeholder 0 query (more_args h hs),
    )
