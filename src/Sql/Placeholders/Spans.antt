-- ===== src/Sql/Placeholders/Spans.antt =====
-- The scan ends, and its placeholders lie in the text one after the other.
use mathlib.Core.Path.{subst}
use entitykit.Common.{
  pos, List-cases, ℕ, zero, suc, ◌+◌, ◌-◌, ◌≤◌, ◌<◌, ◌≡◌, sym, refl, arith, Bool, true, false, not,
  ◌&&◌, ◌||◌, Option, none, some, List, [], ◌∷◌, if◌then◌else◌, ◌==◌, nat_eq, length, take, drop,
  get_elem?, Text, units, starts_with, Option-cases, if_either, inl, inr, ltb,
}
use entitykit.Sql.Placeholders.{
  unit_before, uses_backslash_escapes, is_sql_identifier_character, skip_sql_quoted,
  skip_sql_line_comment, skip_sql_block_comment, count_while, is_name_unit, is_unit, Style,
  ScanOptions, Span, Hit, jump, scan_number, scan_dollar, scan_at, cons_span, scan_from,
  scan_sql_placeholders, sql_dollar_quote_delimiter, numbered_placeholder_end, is_numbered,
}
use entitykit.Sql.Placeholders.Skips.{
  IsForward, length-drop, starts_with-length, skip_sql_quoted-IsForward,
  skip_sql_line_comment-IsForward, skip_sql_dollar_quote-IsForward,
  skip_sql_block_comment-IsForward, numbered_placeholder_end-IsForward,
}

get_elem?-some : (xs : Text) (i c : ℕ) → get_elem? xs i ≡ some c → i < length xs
get_elem?-some [] i c h = cc
get_elem?-some (x ∷ xs) zero c h = omega arith
get_elem?-some (x ∷ xs) (suc i) c h = omega (arith, get_elem?-some xs i c h)

get_elem?-none : (xs : Text) (i : ℕ) → get_elem? xs i ≡ none → length xs ≤ i
get_elem?-none [] i h = omega arith
get_elem?-none (x ∷ xs) zero h = cc
get_elem?-none (x ∷ xs) (suc i) h = omega (arith, get_elem?-none xs i h)

-- Each placeholder starts at or after `low`, ends after it starts and within the text, and the
-- next one starts at or after its end.
abbrev pub IsLaidOut : ℕ → ℕ → List Span → Type 0
IsLaidOut size low [] = Unit
IsLaidOut size low (s ∷ spans) =
    (low ≤ s.start) × (s.start < s.end) × (s.end ≤ size) × IsLaidOut size s.end spans

-- What a turn of the loop finds is where the turn starts, and the loop goes on at its end.
abbrev IsSpanOf : ℕ → ℕ → Option Span → Type 0
IsSpanOf index next none = Unit
IsSpanOf index next (some s) = (s.start ≡ index) × (s.end ≡ next)

abbrev IsHit : ℕ → ℕ → Hit → Type 0
IsHit size index hit = IsForward size index hit.next × IsSpanOf index hit.next hit.span

nothing_found : {d : Text} → none ≡ some d → ⊥
nothing_found h = cc

take-some : (n : ℕ) (xs : Text) → 1 ≤ n → 1 ≤ length xs → 1 ≤ length (take n xs)
take-some zero xs h k = h
take-some (suc n) [] h k = k
take-some (suc n) (x ∷ xs) h k = omega arith

picked :
    (dollar bad long : Bool) (t d : Text)
    → 1 ≤ length t
    → (if dollar then some (units "$$") else if bad then none else if long then some t else none)
      ≡ some d
    → 1 ≤ length d
picked true bad long t d h e = ground (arith, e)
picked false true long t d h e = absurd (nothing_found e)
picked false false true t d h e = ground (arith, e)
picked false false false t d h e = absurd (nothing_found e)

-- A property of every branch of the loop's tests holds of what they choose.
pub any_branch :
    (P : Hit → Type 0) (b1 b2 b3 b4 b5 : Bool) (h1 h2 h3 h4 h5 h6 : Hit)
    → P h1
    → P h2
    → (b3 ≡ true → P h3)
    → P h4
    → P h5
    → P h6
    → P (
        if b1
        then h1
        else if b2
        then h2
        else if b3
        then h3
        else if b4
        then h4
        else if b5
        then h5
        else h6)
any_branch P true b2 b3 b4 b5 h1 h2 h3 h4 h5 h6 p1 p2 p3 p4 p5 p6 = p1
any_branch P false true b3 b4 b5 h1 h2 h3 h4 h5 h6 p1 p2 p3 p4 p5 p6 = p2
any_branch P false false true b4 b5 h1 h2 h3 h4 h5 h6 p1 p2 p3 p4 p5 p6 = p3 refl
any_branch P false false false true b5 h1 h2 h3 h4 h5 h6 p1 p2 p3 p4 p5 p6 = p4
any_branch P false false false false true h1 h2 h3 h4 h5 h6 p1 p2 p3 p4 p5 p6 = p5
any_branch P false false false false false h1 h2 h3 h4 h5 h6 p1 p2 p3 p4 p5 p6 = p6

module _ (is_letter is_mark is_number : ℕ → Bool) where
  delimiter-length :
      (sql : Text) (start : ℕ) (d : Text)
      → start < length sql
      → sql_dollar_quote_delimiter is_letter is_mark is_number sql start ≡ some d
      → 1 ≤ length d
  unfolding sql_dollar_quote_delimiter
  delimiter-length sql start d h e = elim (List-cases (drop (start + 1) sql)) [
    | inl q ↦ absurd (nothing_found (rw (sql_dollar_quote_delimiter, q) at e))
    | inr (c, rest, q) ↦
        let end = start + 2 + count_while (is_name_unit is_letter is_mark is_number) rest in
        picked (c == b'$') (not (is_letter c || c == b'_')) (is_unit (get_elem? sql end) b'$')
          (take (end + 1 - start) (drop start sql)) d
          (take-some (end + 1 - start) (drop start sql) (omega arith)
            (omega (arith, length-drop start sql, h)))
          (rw (sql_dollar_quote_delimiter, q) at e)
  ]

  delimiter_or_none :
      (sql : Text) (index : ℕ) (b : Bool)
      → index < length sql
      → (d : Text)
      → (if b then sql_dollar_quote_delimiter is_letter is_mark is_number sql index else none)
        ≡ some d
      → 1 ≤ length d
  delimiter_or_none sql index true h d e = delimiter-length sql index d h e
  delimiter_or_none sql index false h d e = cc

  scan_number-IsHit :
      (sql : Text) (index questions : ℕ)
      → index < length sql
      → IsHit (length sql) index (scan_number is_letter is_mark is_number sql index questions)
  unfolding scan_number
  scan_number-IsHit sql index questions h =
      let f = numbered_placeholder_end-IsForward sql index h in
      if_either (IsHit (length sql) index) (ltb (index + 1) (numbered_placeholder_end sql index)) _
        _ (λ b. (f, (refl, refl))) (λ b. (omega (arith, h), tt))

  scan_dollar-IsHit :
      (sql : Text) (style : Style) (can_start : Bool) (delimiter : Option Text)
      (index questions : ℕ)
      → index < length sql
      → ((d : Text) → delimiter ≡ some d → 1 ≤ length d)
      → IsHit
          (length sql)
          index
          (scan_dollar is_letter is_mark is_number sql style can_start delimiter index questions)
  scan_dollar-IsHit sql style can_start (some d) index questions h l =
      (skip_sql_dollar_quote-IsForward sql index d h (l d refl), tt)
  scan_dollar-IsHit sql style can_start none index questions h l =
      if_either (IsHit (length sql) index) (is_numbered style && can_start) _ _
        (λ b. scan_number-IsHit sql index questions h) (λ b. (omega (arith, h), tt))

  scan_at-IsHit :
      (sql : Text) (style : Style) (options : ScanOptions) (c index questions : ℕ)
      → index < length sql
      → IsHit
          (length sql)
          index
          (scan_at is_letter is_mark is_number sql style options c index questions)
  unfolding scan_at
  scan_at-IsHit sql style options c index questions h =
      let can_start =
        not (is_sql_identifier_character is_letter is_mark is_number (unit_before sql index 1)) in
      let delimiter =
        if can_start && options.dollar_quotes
        then sql_dollar_quote_delimiter is_letter is_mark is_number sql index
        else none in
      let escapes = uses_backslash_escapes is_letter is_mark is_number sql index c options in
      any_branch (IsHit (length sql) index) (c == b'\'' || (c == b'"' || c == b'`'))
        (starts_with (drop index sql) (units "--") || (options.hash_line_comments && c == b'#'))
        (starts_with (drop index sql) (units "/*")) (c == b'$')
        (not (is_numbered style) && c == b'?')
        (jump questions (skip_sql_quoted sql index c escapes))
        (jump questions (skip_sql_line_comment sql index))
        (jump questions (skip_sql_block_comment sql index))
        (scan_dollar is_letter is_mark is_number sql style can_start delimiter index questions)
        (record {
          next = index + 1;
          span = some (record {
            start = index;
            end = index + 1;
            value_index = pos questions;
            text = units "?";
          });
          questions = questions + 1;
        })
        (jump questions (index + 1)) (skip_sql_quoted-IsForward sql index c escapes h, tt)
        (skip_sql_line_comment-IsForward sql index h, tt)
        (λ b. (
          skip_sql_block_comment-IsForward sql index (
              omega
                (arith, starts_with-length (drop index sql) (units "/*") b, length-drop index sql)),
          tt,
        ))
        (scan_dollar-IsHit sql style can_start delimiter index questions h
          (delimiter_or_none sql index (can_start && options.dollar_quotes) h))
        (omega (arith, h), (refl, refl)) (omega (arith, h), tt)

  laid_out :
      (size index next : ℕ) (span : Option Span) (spans : List Span)
      → IsForward size index next
      → IsSpanOf index next span
      → IsLaidOut size next spans
      → IsLaidOut size index (cons_span span spans)
  laid_out size index next none [] f o l = tt
  laid_out size index next none (s ∷ spans) f o (a, b, c, l) = (omega (arith, a, f), b, c, l)
  laid_out size index next (some s) spans f (b, e) l = (
    omega (arith, b),
    omega (arith, b, e, f),
    omega (arith, e, f),
    subst (λ n. IsLaidOut size n spans) (sym e) l,
  )

  scan_from-IsLaidOut :
      (fuel : ℕ) (sql : Text) (style : Style) (options : ScanOptions) (index questions : ℕ)
      → length sql ≤ index + fuel
      → (spans : List Span) × (scan_from is_letter is_mark is_number fuel sql style options index
            questions
          ≡ some spans)
        × IsLaidOut (length sql) index spans
  unfolding scan_from
  scan_from-IsLaidOut zero sql style options index questions h = ([], ground (arith, h), tt)
  scan_from-IsLaidOut (suc fuel) sql style options index questions h =
      elim (Option-cases (get_elem? sql index)) [
        | inl q ↦ ([], (rw (scan_from, q) refl), tt)
        | inr (c, q) ↦
            let hit = scan_at is_letter is_mark is_number sql style options c index questions in
            let (f, o) =
              scan_at-IsHit sql style options c index questions (get_elem?-some sql index c q) in
            let (spans, e, l) =
              scan_from-IsLaidOut fuel sql style options hit.next hit.questions
                (omega (arith, h, f)) in
            (
              cons_span hit.span spans,
              (rw (scan_from, q, e) refl),
              laid_out (length sql) index hit.next hit.span spans f o l,
            )
      ]

  -- Every text is scanned to its end within the fuel, and the placeholders found lie within the
  -- text, are not empty, and come one after the other without overlap.
  pub scan_sql_placeholders-IsLaidOut :
      (sql : Text) (style : Style) (options : ScanOptions)
      → (spans : List Span) × (scan_sql_placeholders is_letter is_mark is_number sql style options
          ≡ some spans)
        × IsLaidOut (length sql) 0 spans
  unfolding scan_sql_placeholders
  scan_sql_placeholders-IsLaidOut sql style options =
      scan_from-IsLaidOut (length sql) sql style options 0 0 (omega arith)
