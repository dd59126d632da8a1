-- ===== src/Formatter/Substitute.antt =====
-- `SubstitutePlaceholders` of format.go. Placeholders are not empty.
pub mod Redaction
use go_sqldb.Prelude.{
  has_prefix, ℕ, zero, suc, ◌+◌, ◌-◌, Bool, true, false, ◌&&◌, List, [], ◌∷◌, ◌++◌, Bytes, codes,
  length, drop, ◌==◌, bytes_eq, if◌then◌else◌, Error, Result, ok, err,
}
use go_sqldb.Value.{Value, format_value}

pub format_error_sentinel : Bytes
format_error_sentinel = codes "<FORMATERROR>"

-- `strings.Replace(s, old, new, 1)`.
pub replace_first : Bytes → Bytes → Bytes → Bytes
unfolding has_prefix
replace_first old new [] = []
replace_first old new (c ∷ s) =
    let later = replace_first old new s in
    if has_prefix old (c ∷ s) then new ++ drop (length old) (c ∷ s) else c ∷ later

-- `strings.ReplaceAll(s, old, new)`; the number counts the bytes of an occurrence still to skip.
replace_from : Bytes → Bytes → ℕ → Bytes → Bytes
replace_from old new k [] = []
replace_from old new (suc k) (c ∷ s) = replace_from old new k s
replace_from old new zero (c ∷ s) = elim (has_prefix old (c ∷ s)) [
  | true ↦ new ++ replace_from old new (length old - 1) s
  | false ↦ c ∷ replace_from old new zero s
]

pub replace_all : Bytes → Bytes → Bytes → Bytes
unfolding replace_from has_prefix
replace_all old new s = replace_from old new 0 s

-- The value that stands for an argument, and the errors with a failure added.
abbrev shown : Result Bytes → Bytes
shown (ok value) = value
shown (err e) = format_error_sentinel

abbrev collect : Result Bytes → List Error → List Error
collect (ok value) errs = errs
collect (err e) errs = errs ++ e ∷ []

-- Uniform placeholders: each argument replaces the first that is left.
unfoldable pub substitute_uniform : Bytes → List Value → Bytes → List Error → Bytes × List Error
unfolding format_error_sentinel replace_first format_value
substitute_uniform placeholder [] query errs = (query, errs)
substitute_uniform placeholder (arg ∷ args) query errs =
    substitute_uniform placeholder args (replace_first placeholder (shown (format_value arg)) query)
      (collect (format_value arg) errs)

abbrev replace_one : Bytes → Result Bytes → Bytes × List Error → Bytes × List Error
replace_one placeholder value (query, errs) =
    (replace_all placeholder (shown value) query, collect value errs)

-- Numbered placeholders, from the last argument to the first; the number is the first's index.
unfoldable pub substitute_numbered : (ℕ → Bytes) → ℕ → List Value → Bytes → Bytes × List Error
unfolding format_error_sentinel replace_all format_value
substitute_numbered placeholder i [] query = (query, [])
substitute_numbered placeholder i (arg ∷ args) query =
    replace_one (placeholder i) (format_value arg)
      (substitute_numbered placeholder (i + 1) args query)

unfoldable pub substitute_placeholders : (ℕ → Bytes) → Bytes → List Value → Bytes × List Error
substitute_placeholders placeholder query [] = (query, [])
substitute_placeholders placeholder query (arg ∷ args) =
    if bytes_eq (placeholder 1) (placeholder 0)
    then substitute_uniform (placeholder 0) (arg ∷ args) query []
    else substitute_numbered placeholder 0 (arg ∷ args) query
