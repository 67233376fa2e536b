-- ===== src/Sql/Placeholders/Skips.antt =====
-- The inner loops move forward and stay within the text.
use entitykit.Common.{
  ℕ, zero, suc, ◌+◌, ◌-◌, ◌≤◌, ◌<◌, ◌≡◌, arith, Bool, true, some, [], ◌∷◌, nat_eq, length, drop,
  Text, units, starts_with, Option-cases, inl, inr,
}
use entitykit.Sql.Placeholders.{
  skip_quoted_in, skip_sql_quoted, index_of_in, skip_sql_line_comment, skip_block_in,
  skip_sql_block_comment, skip_sql_dollar_quote, count_while, numbered_placeholder_end, is_digit,
}

-- At an index of the text, the loop moves on and does not leave the text.
abbrev pub IsForward : ℕ → ℕ → ℕ → Type 0
IsForward size index next = (index < next) × (next ≤ size)

pub length-drop : (n : ℕ) (xs : Text) → length (drop n xs) ≡ length xs - n
length-drop zero xs = omega arith
length-drop (suc n) [] = omega arith
length-drop (suc n) (x ∷ xs) = omega (arith, length-drop n xs)

skip_quoted_in-bounds :
    (quote : ℕ) (escapes : Bool) (size : ℕ) (rest : Text) (index : ℕ)
    → index + length rest ≡ size
    → (index ≤ skip_quoted_in quote escapes size rest index)
      × (skip_quoted_in quote escapes size rest index ≤ size)
unfolding skip_quoted_in
skip_quoted_in-bounds quote escapes size [] index h = omega (arith, h)
skip_quoted_in-bounds quote escapes size (c ∷ []) index h = ground (arith, h)
skip_quoted_in-bounds quote escapes size (c ∷ d ∷ rest) index h = ground (
  arith,
  h,
  skip_quoted_in-bounds quote escapes size (d ∷ rest) (index + 1) (omega (arith, h)),
  skip_quoted_in-bounds quote escapes size rest (index + 2) (omega (arith, h)),
)

pub skip_sql_quoted-IsForward :
    (sql : Text) (start quote : ℕ) (escapes : Bool)
    → start < length sql
    → IsForward (length sql) start (skip_sql_quoted sql start quote escapes)
unfolding skip_sql_quoted
skip_sql_quoted-IsForward sql start quote escapes h =
    let b =
      skip_quoted_in-bounds quote escapes (length sql) (drop (start + 1) sql) (start + 1)
        (omega (arith, length-drop (start + 1) sql, h)) in
    omega (arith, b)

pub starts_with-length :
    (text wanted : Text) → starts_with text wanted ≡ true → length wanted ≤ length text
unfolding starts_with
starts_with-length text [] h = omega arith
starts_with-length [] (w ∷ ws) h = cc
starts_with-length (c ∷ text) (w ∷ ws) h = ground (arith, starts_with-length text ws)

index_of_in-bounds :
    (wanted rest : Text) (index found : ℕ)
    → index_of_in wanted rest index ≡ some found
    → (index ≤ found) × (found + length wanted ≤ index + length rest)
unfolding index_of_in
index_of_in-bounds wanted [] index found h = ground (arith, h, starts_with-length [] wanted)
index_of_in-bounds wanted (c ∷ rest) index found h = ground (
  arith,
  h,
  starts_with-length (c ∷ rest) wanted,
  index_of_in-bounds wanted rest (index + 1) found,
)

pub skip_sql_line_comment-IsForward :
    (sql : Text) (start : ℕ)
    → start < length sql
    → IsForward (length sql) start (skip_sql_line_comment sql start)
unfolding skip_sql_line_comment
skip_sql_line_comment-IsForward sql start h =
    elim (Option-cases (index_of_in (units "\n") (drop (start + 1) sql) (start + 1))) [
      | inl q ↦ rw (skip_sql_line_comment, q) (omega (arith, h))
      | inr (i, q) ↦
          rw (skip_sql_line_comment, q)
            (omega (
              arith,
              h,
              length-drop (start + 1) sql,
              index_of_in-bounds (units "\n") (drop (start + 1) sql) (start + 1) i q,
            ))
    ]

pub skip_sql_dollar_quote-IsForward :
    (sql : Text) (start : ℕ) (delimiter : Text)
    → start < length sql
    → 1 ≤ length delimiter
    → IsForward (length sql) start (skip_sql_dollar_quote sql start delimiter)
unfolding skip_sql_dollar_quote
skip_sql_dollar_quote-IsForward sql start delimiter h d =
    elim (Option-cases
      (index_of_in delimiter (drop (start + length delimiter) sql) (start + length delimiter))) [
        | inl q ↦ rw (skip_sql_dollar_quote, q) (omega (arith, h))
        | inr (i, q) ↦
            rw (skip_sql_dollar_quote, q)
              (omega (
                arith,
                h,
                d,
                length-drop (start + length delimiter) sql,
                index_of_in-bounds delimiter (drop (start + length delimiter) sql)
                    (start + length delimiter) i q,
              ))
      ]

skip_block_in-bounds :
    (depth : ℕ) (rest : Text) (index : ℕ)
    → (index ≤ skip_block_in depth rest index)
      × (skip_block_in depth rest index ≤ index + length rest)
unfolding skip_block_in
skip_block_in-bounds zero rest index = omega arith
skip_block_in-bounds (suc depth) [] index = omega arith
skip_block_in-bounds (suc depth) (c ∷ []) index = omega arith
skip_block_in-bounds (suc depth) (c ∷ d ∷ rest) index = ground (
  arith,
  skip_block_in-bounds (suc (suc depth)) rest (index + 2),
  skip_block_in-bounds depth rest (index + 2),
  skip_block_in-bounds (suc depth) (d ∷ rest) (index + 1),
)

pub skip_sql_block_comment-IsForward :
    (sql : Text) (start : ℕ)
    → start + 2 ≤ length sql
    → IsForward (length sql) start (skip_sql_block_comment sql start)
unfolding skip_sql_block_comment
skip_sql_block_comment-IsForward sql start h = omega (
  arith,
  h,
  length-drop (start + 2) sql,
  skip_block_in-bounds 1 (drop (start + 2) sql) (start + 2),
)

count_while-length : (p : ℕ → Bool) (xs : Text) → count_while p xs ≤ length xs
unfolding count_while
count_while-length p [] = omega arith
count_while-length p (c ∷ xs) = ground (arith, count_while-length p xs)

pub numbered_placeholder_end-IsForward :
    (sql : Text) (start : ℕ)
    → start < length sql
    → IsForward (length sql) start (numbered_placeholder_end sql start)
unfolding numbered_placeholder_end
numbered_placeholder_end-IsForward sql start h =
    omega
      (arith, h, length-drop (start + 1) sql, count_while-length is_digit (drop (start + 1) sql))
