-- ===== src/Formatter/Std/Distinct.antt =====
-- Different parameters have different placeholders.
use mathlib.Core.List.{append_cancel_left}
use go_sqldb.Prelude.{sym, ◌∙◌, ℕ, ◌+◌, ◌≡◌, refl, arith, false, [], ◌++◌, bytes_eq}
use go_sqldb.Formatter.Placeholder.{itoa, itoa-injective}
use go_sqldb.Formatter.Std.{StdQueryFormatter, format_placeholder}

prefixed :
    (f : StdQueryFormatter) (n : ℕ)
    → bytes_eq f.placeholder_pos_prefix [] ≡ false
    → format_placeholder f n ≡ f.placeholder_pos_prefix ++ itoa (n + 1)
unfolding format_placeholder
prefixed f n h = rw h refl

-- With a placeholder prefix, two parameters have the same placeholder only if they are the same.
pub format_placeholder-injective :
    (f : StdQueryFormatter) (m n : ℕ)
    → bytes_eq f.placeholder_pos_prefix [] ≡ false
    → format_placeholder f m ≡ format_placeholder f n
    → m ≡ n
format_placeholder-injective f m n h e =
    let next = itoa-injective (m + 1) (n + 1) (
      append_cancel_left f.placeholder_pos_prefix _ _
        (sym (prefixed f m h) ∙ e ∙ prefixed f n h)) in
    omega arith
