-- ===== src/Query/Outcome.antt =====
-- How the loop over rows of query.go ends: its fuel never runs out, and every end is one of four.
use go_sqldb.Prelude.{
  ℕ, zero, suc, ◌+◌, ◌≤◌, ◌<◌, leb, length, length-append, true, false, List, [], ◌∷◌, ◌++◌,
  append_assoc, append-nil, Option, none, some, Option-cases, Bool-cases, ◌≡◌, refl, ap, sym, ◌∙◌,
  inl, inr, arith, ◌⊎◌,
}
use go_sqldb.Errors.{DbError, max_num_rows_exceeded}
use go_sqldb.Query.{Reply, got, failed, Querier, refusal, each_row, Reply-cases}

pub pair_eq : {A B : Type 0} {a : A} (p : A × B) → p.0 ≡ a → p ≡ (a, p.1)
pair_eq p e = ap (λ x. (x, p.1)) e

module _ {S H D : Type 0} (q : Querier S H D) {T : Type 0} (scan : H → S → Reply D T × S)
    (h : H) where
  -- Rows that are read one after the other, each after the context was found open.
  pub data Reads : S → List T → S → Type 0 where
    nothing_read : {s : S} → Reads s [] s
    row_read :
        {s t u v : S} {row : T} {rows : List T}
        → q.next h s ≡ (true, t)
        → q.context_err t ≡ none
        → scan h t ≡ (got row, u)
        → Reads u rows v
        → Reads s (row ∷ rows) v

  -- How a loop that has read `num_rows` rows ends, from the state behind the last of them.
  pub data Stops (max_num_rows num_rows : ℕ) (s : S) : Option (DbError D) → S → Type 0 where
    -- `Next` has no row, the error is that of `Err`
    exhausted : {t : S} → q.next h s ≡ (false, t) → Stops max_num_rows num_rows s (q.err h t) t
    -- there is one more row than the limit
    capped :
        {t : S}
        → q.next h s ≡ (true, t)
        → max_num_rows ≤ num_rows
        → Stops max_num_rows num_rows s (some (max_num_rows_exceeded max_num_rows)) t
    cancelled :
        {t : S} {e : DbError D}
        → q.next h s ≡ (true, t)
        → num_rows < max_num_rows
        → q.context_err t ≡ some e
        → Stops max_num_rows num_rows s (some e) t
    unscanned :
        {t u : S} {e : DbError D}
        → q.next h s ≡ (true, t)
        → num_rows < max_num_rows
        → q.context_err t ≡ none
        → scan h t ≡ (failed e, u)
        → Stops max_num_rows num_rows s (some e) u

  -- The rows behind `before`, and the end.
  pub record IsEnd (max_num_rows : ℕ) (before : List T) (s : S)
      (r : (List T × Option (DbError D)) × S) : Type 0 where
    pub rows : List T
    pub last : S
    pub reads : Reads s rows last
    pub all_rows : r.0.0 ≡ before ++ rows
    pub within : length r.0.0 ≤ max_num_rows
    pub stops : Stops max_num_rows (length r.0.0) last r.0.1 r.1

  abbrev pub Ends : ℕ → List T → S → Option ((List T × Option (DbError D)) × S) → Type 0
  Ends max before s o =
      (r : (List T × Option (DbError D)) × S) × (o ≡ some r) × IsEnd max before s r

  Ends-here :
      (max : ℕ) (rows : List T) (s t : S) (e : Option (DbError D))
      → length rows ≤ max
      → Stops max (length rows) s e t
      → Ends max rows s (some ((rows, e), t))
  Ends-here max rows s t e b h = (
    ((rows, e), t),
    refl,
    record {
      rows = [];
      last = s;
      reads = nothing_read;
      all_rows = sym (append-nil rows);
      within = b;
      stops = h;
    },
  )

  Ends-after :
      (max : ℕ) (before : List T) (row : T) (s t u : S)
      → q.next h s ≡ (true, t)
      → q.context_err t ≡ none
      → scan h t ≡ (got row, u)
      → (o : Option ((List T × Option (DbError D)) × S)) → Ends max (before ++ row ∷ []) u o
      → Ends max before s o
  Ends-after max before row s t u n c g o (r, e, end) = (
    r,
    e,
    record {
      rows = row ∷ end.rows;
      last = end.last;
      reads = row_read n c g end.reads;
      all_rows = end.all_rows ∙ append_assoc before (row ∷ []) end.rows;
      within = end.within;
      stops = end.stops;
    },
  )

  refused_cases :
      (max : ℕ) (rows : List T) (t : S)
      → length rows ≤ max
      → ((refusal q scan max h rows t ≡ none) × (length rows < max) × (q.context_err t ≡ none))
        ⊎ ((refusal q scan max h rows t ≡ some (max_num_rows_exceeded max)) × (max ≤ length rows))
        ⊎ ((e : DbError D) × (refusal q scan max h rows t ≡ some e)
            × (length rows < max)
            × (q.context_err t ≡ some e))
  unfolding refusal
  refused_cases max rows t b = elim (Bool-cases (leb max (length rows))) [
    | inl h ↦ inr (inl (rw h refl, ground arith))
    | inr h ↦ elim (Option-cases (q.context_err t)) [
      | inl c ↦ inl (rw h c, ground arith, c)
      | inr (e, c) ↦ inr (inr (e, rw h c, ground arith, c))
    ]
  ]

  pub each_row-Ends :
      (max fuel : ℕ) (rows : List T) (s : S)
      → length rows ≤ max
      → max < length rows + fuel
      → Ends max rows s (each_row q scan max h fuel rows s)
  unfolding each_row
  each_row-Ends max zero rows s b f = absurd (omega (arith, b, f))
  each_row-Ends max (suc fuel) rows s b f = elim (Bool-cases (q.next h s).0) [
    | inr n ↦
        rw (each_row, n)
          (Ends-here max rows s (q.next h s).1 _ b (exhausted (pair_eq (q.next h s) n)))
    | inl n ↦
        let t = (q.next h s).1 in
        elim (refused_cases max rows t b) [
          | inr (inl (r, c)) ↦
              rw (each_row, n, r) (Ends-here max rows s t _ b (capped (pair_eq _ n) c))
          | inr (inr (e, r, l, c)) ↦
              rw (each_row, n, r) (Ends-here max rows s t _ b (cancelled (pair_eq _ n) l c))
          | inl (r, l, c) ↦ elim (Reply-cases (scan h t).0) [
            | inl (row, g) ↦
                Ends-after max rows row s t (scan h t).1 (pair_eq _ n) c (pair_eq _ g) _ (
                  rw (each_row, n, r, g)
                    (each_row-Ends max fuel (rows ++ row ∷ []) (scan h t).1
                      (omega (arith, length-append rows (row ∷ []), l))
                      (omega (arith, length-append rows (row ∷ []), f))))
            | inr (e, g) ↦
                rw (each_row, n, r, g)
                  (Ends-here max rows s (scan h t).1 _ b
                    (unscanned (pair_eq _ n) l c (pair_eq _ g)))
          ]
        ]
  ]
