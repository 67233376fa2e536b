-- ===== src/Sql/Placeholders.antt =====
-- packages/core/src/sql/sql-placeholder-scanner.ts and sql-placeholder-context.ts. A text is its
-- UTF-16 units. The inner loops run over the units from an index on; `scan_from` has fuel, which
-- is `none` when it runs out. The Unicode classes of the regular expressions are arguments.
pub mod Skips
pub mod Spans
pub mod Backslash
pub mod Questions
use entitykit.Common.{
  ℕ, zero, suc, ◌+◌, ◌-◌, ◌*◌, Bool, true, false, not, ◌&&◌, ◌||◌, Option, none, some, List, [],
  ◌∷◌, ◌++◌, if◌then◌else◌, ◌==◌, nat_eq, ltb, leb, length, take, drop, get_elem?, Text, units,
  starts_with, ℤ, pos, decrement,
}

pub data Style : Type 0 where
  question numbered : Style

pub record ScanOptions : Type 0 where
  pub backslash_escapes : Bool
  pub dollar_quotes : Bool
  pub hash_line_comments : Bool
  pub postgres_escape_strings : Bool

pub record Span : Type 0 where
  pub start : ℕ
  pub end : ℕ
  pub value_index : ℤ
  pub text : Text

-- `skipSqlQuoted` from `index` on; `size` is the length of the whole text.
unfoldable pub skip_quoted_in : ℕ → Bool → ℕ → Text → ℕ → ℕ
skip_quoted_in quote escapes size [] index = size
skip_quoted_in quote escapes size (c ∷ []) index =
    if escapes && c == b'\\' then size else if not (c == quote) then size else index + 1
skip_quoted_in quote escapes size (c ∷ d ∷ rest) index =
    let by_one = skip_quoted_in quote escapes size (d ∷ rest) (index + 1) in
    let by_two = skip_quoted_in quote escapes size rest (index + 2) in
    if escapes && c == b'\\'
    then by_two
    else if not (c == quote)
    then by_one
    else if d == quote
    then by_two
    else index + 1

unfoldable pub skip_sql_quoted : Text → ℕ → ℕ → Bool → ℕ
unfolding skip_quoted_in
skip_sql_quoted sql start quote escapes =
    skip_quoted_in quote escapes (length sql) (drop (start + 1) sql) (start + 1)

-- `indexOf`, in the units from `index` on.
unfoldable pub index_of_in : Text → Text → ℕ → Option ℕ
index_of_in wanted [] index = if starts_with [] wanted then some index else none
index_of_in wanted (c ∷ rest) index =
    let later = index_of_in wanted rest (index + 1) in
    if starts_with (c ∷ rest) wanted then some index else later

unfoldable pub skip_sql_line_comment : Text → ℕ → ℕ
unfolding index_of_in
skip_sql_line_comment sql start =
    elim (index_of_in (units "\n") (drop (start + 1) sql) (start + 1)) [
      | none ↦ length sql
      | some newline ↦ newline + 1
    ]

unfoldable pub skip_block_in : ℕ → Text → ℕ → ℕ
skip_block_in zero rest index = index
skip_block_in (suc depth) [] index = index
skip_block_in (suc depth) (c ∷ []) index = index + 1
skip_block_in (suc depth) (c ∷ d ∷ rest) index =
    let deeper = skip_block_in (suc (suc depth)) rest (index + 2) in
    let closed = skip_block_in depth rest (index + 2) in
    let on = skip_block_in (suc depth) (d ∷ rest) (index + 1) in
    if c == b'/' && d == b'*' then deeper else if c == b'*' && d == b'/' then closed else on

unfoldable pub skip_sql_block_comment : Text → ℕ → ℕ
unfolding skip_block_in
skip_sql_block_comment sql start = skip_block_in 1 (drop (start + 2) sql) (start + 2)

unfoldable pub skip_sql_dollar_quote : Text → ℕ → Text → ℕ
unfolding index_of_in
skip_sql_dollar_quote sql start delimiter =
    elim (index_of_in delimiter (drop (start + length delimiter) sql) (start + length delimiter)) [
      | none ↦ length sql
      | some end ↦ end + length delimiter
    ]

abbrev pub is_digit : ℕ → Bool
is_digit c = leb b'0' c && leb c b'9'

-- How many units from the start satisfy the test.
unfoldable pub count_while : (ℕ → Bool) → Text → ℕ
count_while p [] = 0
count_while p (c ∷ rest) = let more = count_while p rest in if p c then suc more else 0

unfoldable pub numbered_placeholder_end : Text → ℕ → ℕ
unfolding count_while
numbered_placeholder_end sql start = start + 1 + count_while is_digit (drop (start + 1) sql)

-- `Number(...)` of digits.
unfoldable pub number_of : ℕ → Text → ℕ
number_of n [] = n
number_of n (c ∷ rest) = number_of (10 * n + (c - b'0')) rest

-- `sql[start - back]`, where a negative index has no unit.
unfoldable pub unit_before : Text → ℕ → ℕ → Option ℕ
unit_before sql start back = if ltb start back then none else get_elem? sql (start - back)

-- `sql.at(start - 1)`, where -1 is the last unit.
unfoldable pub at_before : Text → ℕ → Option ℕ
at_before sql zero = get_elem? sql (length sql - 1)
at_before sql (suc i) = get_elem? sql i

abbrev pub is_unit : Option ℕ → ℕ → Bool
is_unit none c = false
is_unit (some d) c = d == c

-- Where the main loop goes on, and the placeholder that it finds.
pub record Hit : Type 0 where
  pub next : ℕ
  pub span : Option Span
  pub questions : ℕ

abbrev pub jump : ℕ → ℕ → Hit
jump questions next = record { next = next; span = none; questions = questions }

abbrev pub is_numbered : Style → Bool
is_numbered numbered = true
is_numbered question = false

abbrev pub cons_span : Option Span → List Span → List Span
cons_span none spans = spans
cons_span (some s) spans = s ∷ spans

abbrev pub with_span : Option Span → Option (List Span) → Option (List Span)
with_span span none = none
with_span span (some spans) = some (cons_span span spans)

module _ (is_letter is_mark is_number : ℕ → Bool) where
  abbrev pub is_name_unit : ℕ → Bool
  is_name_unit c = is_letter c || (is_mark c || (is_number c || c == b'_'))

  unfoldable pub is_sql_identifier_character : Option ℕ → Bool
  is_sql_identifier_character none = false
  is_sql_identifier_character (some c) = is_name_unit c || c == b'$'

  unfoldable pub sql_dollar_quote_delimiter : Text → ℕ → Option Text
  unfolding count_while
  sql_dollar_quote_delimiter sql start = elim (drop (start + 1) sql) [
    | [] ↦ none
    | c ∷ rest ↦
        let end = start + 2 + count_while is_name_unit rest in
        if c == b'$'
        then some (units "$$")
        else if not (is_letter c || c == b'_')
        then none
        else if is_unit (get_elem? sql end) b'$'
        then some (take (end + 1 - start) (drop start sql))
        else none
  ]

  unfoldable pub uses_backslash_escapes : Text → ℕ → ℕ → ScanOptions → Bool
  unfolding at_before unit_before is_sql_identifier_character
  uses_backslash_escapes sql start quote options =
      options.backslash_escapes
      || (options.postgres_escape_strings
          && (quote == b'\''
              && ((is_unit (at_before sql start) b'e' || is_unit (at_before sql start) b'E')
                  && not (is_sql_identifier_character (unit_before sql start 2)))))

  unfoldable pub scan_number : Text → ℕ → ℕ → Hit
  unfolding numbered_placeholder_end number_of
  scan_number sql index questions =
      let end = numbered_placeholder_end sql index in
      let text = take (end - index) (drop index sql) in
      if ltb (index + 1) end
      then record {
        next = end;
        span = some (record {
          start = index;
          end = end;
          value_index = decrement (pos (number_of 0 (drop 1 text)));
          text = text;
        });
        questions = questions;
      }
      else jump questions (index + 1)

  -- The branch for `$`, after its delimiter is looked up.
  abbrev pub scan_dollar : Text → Style → Bool → Option Text → ℕ → ℕ → Hit
  scan_dollar sql style can_start (some delimiter) index questions =
      jump questions (skip_sql_dollar_quote sql index delimiter)
  scan_dollar sql style can_start none index questions =
      if is_numbered style && can_start
      then scan_number sql index questions
      else jump questions (index + 1)

  -- One turn of the main loop, at an index with the unit `c`.
  unfoldable pub scan_at : Text → Style → ScanOptions → ℕ → ℕ → ℕ → Hit
  unfolding scan_number sql_dollar_quote_delimiter uses_backslash_escapes
      is_sql_identifier_character unit_before skip_sql_quoted skip_sql_line_comment
      skip_sql_block_comment skip_sql_dollar_quote
  scan_at sql style options c index questions =
      let can_start = not (is_sql_identifier_character (unit_before sql index 1)) in
      let delimiter =
        if can_start && options.dollar_quotes then sql_dollar_quote_delimiter sql index else none in
      if c == b'\'' || (c == b'"' || c == b'`')
      then jump questions (skip_sql_quoted sql index c (uses_backslash_escapes sql index c options))
      else if starts_with (drop index sql) (units "--") || (options.hash_line_comments && c == b'#')
      then jump questions (skip_sql_line_comment sql index)
      else if starts_with (drop index sql) (units "/*")
      then jump questions (skip_sql_block_comment sql index)
      else if c == b'$'
      then scan_dollar sql style can_start delimiter index questions
      else if not (is_numbered style) && c == b'?'
      then record {
        next = index + 1;
        span = some (record {
          start = index;
          end = index + 1;
          value_index = pos questions;
          text = units "?";
        });
        questions = questions + 1;
      }
      else jump questions (index + 1)

  -- The main loop; `none` is out of fuel.
  unfoldable pub scan_from : ℕ → Text → Style → ScanOptions → ℕ → ℕ → Option (List Span)
  unfolding scan_at
  scan_from zero sql style options index questions =
      if ltb index (length sql) then none else some []
  scan_from (suc fuel) sql style options index questions = elim (get_elem? sql index) [
    | none ↦ some []
    | some c ↦
        let hit = scan_at sql style options c index questions in
        with_span hit.span (scan_from fuel sql style options hit.next hit.questions)
  ]

  unfoldable pub scan_sql_placeholders : Text → Style → ScanOptions → Option (List Span)
  unfolding scan_from
  scan_sql_placeholders sql style options = scan_from (length sql) sql style options 0 0
