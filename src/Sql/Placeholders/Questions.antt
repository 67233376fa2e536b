-- ===== src/Sql/Placeholders/Questions.antt =====
-- Question marks are bound by their position.
use entitykit.Common.{
  ℕ, zero, suc, ◌+◌, ◌≡◌, refl, arith, Bool, not, ◌&&◌, ◌||◌, Option, none, some, List, [], ◌∷◌,
  if◌then◌else◌, ◌==◌, nat_eq, pos, length, drop, get_elem?, Text, units, starts_with, Option-cases,
  inl, inr,
}
use entitykit.Sql.Placeholders.{
  question, ScanOptions, Span, jump, scan_dollar, scan_at, cons_span, with_span, scan_from,
  scan_sql_placeholders, unit_before, uses_backslash_escapes, is_sql_identifier_character,
  skip_sql_quoted, skip_sql_line_comment, skip_sql_block_comment, sql_dollar_quote_delimiter,
}
use entitykit.Sql.Placeholders.Spans.{any_branch}

-- The placeholders are bound to consecutive values, from the given one on.
abbrev pub IsNumberedFrom : ℕ → List Span → Type 0
IsNumberedFrom n [] = Unit
IsNumberedFrom n (s ∷ spans) = (s.value_index ≡ pos n) × IsNumberedFrom (n + 1) spans

abbrev IsNextOf : ℕ → Option Span → ℕ → Type 0
IsNextOf n none m = m ≡ n
IsNextOf n (some s) m = (s.value_index ≡ pos n) × (m ≡ n + 1)

with_span-some :
    (span : Option Span) (o : Option (List Span)) (spans : List Span)
    → with_span span o ≡ some spans
    → (rest : List Span) × (o ≡ some rest) × (spans ≡ cons_span span rest)
with_span-some span none spans h = cc
with_span-some span (some rest) spans h = (rest, refl, cc)

none_found : (n : ℕ) (spans : List Span) → some [] ≡ some spans → IsNumberedFrom n spans
none_found n [] h = tt
none_found n (s ∷ spans) h = cc

module _ (is_letter is_mark is_number : ℕ → Bool) where
  scan_dollar-IsNextOf :
      (sql : Text) (can_start : Bool) (delimiter : Option Text) (index questions : ℕ)
      → IsNextOf questions
          (scan_dollar is_letter is_mark is_number sql question can_start delimiter index
            questions).span
          (scan_dollar is_letter is_mark is_number sql question can_start delimiter index
            questions).questions
  scan_dollar-IsNextOf sql can_start (some d) index questions = refl
  scan_dollar-IsNextOf sql can_start none index questions = refl

  scan_at-IsNextOf :
      (sql : Text) (options : ScanOptions) (c index questions : ℕ)
      → IsNextOf questions
          (scan_at is_letter is_mark is_number sql question options c index questions).span
          (scan_at is_letter is_mark is_number sql question options c index questions).questions
  unfolding scan_at
  scan_at-IsNextOf sql options c index questions =
      let can_start =
        not (is_sql_identifier_character is_letter is_mark is_number (unit_before sql index 1)) in
      let delimiter =
        if can_start && options.dollar_quotes
        then sql_dollar_quote_delimiter is_letter is_mark is_number sql index
        else none in
      any_branch (λ hit. IsNextOf questions hit.span hit.questions)
        (c == b'\'' || (c == b'"' || c == b'`'))
        (starts_with (drop index sql) (units "--") || (options.hash_line_comments && c == b'#'))
        (starts_with (drop index sql) (units "/*")) (c == b'$') (c == b'?')
        (jump questions (
          skip_sql_quoted sql index c
            (uses_backslash_escapes is_letter is_mark is_number sql index c options)))
        (jump questions (skip_sql_line_comment sql index))
        (jump questions (skip_sql_block_comment sql index))
        (scan_dollar is_letter is_mark is_number sql question can_start delimiter index questions)
        (record {
          next = index + 1;
          span = some (record {
            start = index;
            end = index + 1;
            value_index = pos questions;
            text = units "?";
          });
          questions = questions + 1;
        })
        (jump questions (index + 1)) refl refl (λ b. refl)
        (scan_dollar-IsNextOf sql can_start delimiter index questions) (refl, refl) refl

  numbered_next :
      (n m : ℕ) (span : Option Span) (spans : List Span)
      → IsNextOf n span m
      → IsNumberedFrom m spans
      → IsNumberedFrom n (cons_span span spans)
  numbered_next n m none spans h k = rw h at k
  numbered_next n m (some s) spans (v, h) k = (v, rw h at k)

  scan_from-IsNumberedFrom :
      (fuel : ℕ) (sql : Text) (options : ScanOptions) (index questions : ℕ) (spans : List Span)
      → scan_from is_letter is_mark is_number fuel sql question options index questions ≡ some spans
      → IsNumberedFrom questions spans
  unfolding scan_from
  scan_from-IsNumberedFrom zero sql options index questions [] h = tt
  scan_from-IsNumberedFrom zero sql options index questions (s ∷ spans) h =
      absurd (ground (arith, h))
  scan_from-IsNumberedFrom (suc fuel) sql options index questions spans h =
      elim (Option-cases (get_elem? sql index)) [
        | inl q ↦ none_found questions spans (rw (scan_from, q) at h)
        | inr (c, q) ↦
            let hit = scan_at is_letter is_mark is_number sql question options c index questions in
            let (rest, e, k) =
              with_span-some hit.span
                (scan_from is_letter is_mark is_number fuel sql question options hit.next
                  hit.questions)
                spans (rw (scan_from, q) at h) in
            rw k (
              numbered_next questions hit.questions hit.span rest
                (scan_at-IsNextOf sql options c index questions)
                (scan_from-IsNumberedFrom fuel sql options hit.next hit.questions rest e))
      ]

  -- In a text with question marks, the n-th placeholder found is bound to the n-th value.
  pub scan_sql_placeholders-IsNumberedFrom :
      (sql : Text) (options : ScanOptions) (spans : List Span)
      → scan_sql_placeholders is_letter is_mark is_number sql question options ≡ some spans
      → IsNumberedFrom 0 spans
  unfolding scan_sql_placeholders
  scan_sql_placeholders-IsNumberedFrom sql options spans h =
      scan_from-IsNumberedFrom (length sql) sql options 0 0 spans h
