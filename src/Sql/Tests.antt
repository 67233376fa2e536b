-- ===== src/Sql/Tests.antt =====
-- The scan of small texts.
use entitykit.Common.{
  ℕ, ◌≡◌, refl, Bool, true, false, ◌&&◌, some, List, [], ◌∷◌, ◌++◌, Text, units, length,
  starts_with, pos, leb,
}
use entitykit.Sql.Placeholders.{
  ScanOptions, question, Span, scan_sql_placeholders, uses_backslash_escapes,
}
use entitykit.Sql.Placeholders.Spans.{IsLaidOut, scan_sql_placeholders-IsLaidOut}
use entitykit.Sql.Placeholders.Questions.{IsNumberedFrom, scan_sql_placeholders-IsNumberedFrom}
use entitykit.Sql.Placeholders.Backslash.{uses_backslash_escapes-first}

abbrev letter : ℕ → Bool
letter c = leb b'a' c && leb c b'z'

abbrev never : ℕ → Bool
never c = false

abbrev plain : ScanOptions
plain = record {
  backslash_escapes = false;
  dollar_quotes = false;
  hash_line_comments = false;
  postgres_escape_strings = false;
}

abbrev postgres : ScanOptions
postgres = record {
  backslash_escapes = false;
  dollar_quotes = true;
  hash_line_comments = false;
  postgres_escape_strings = true;
}

abbrev quoted : Text
quoted = units "a=? or '?'=?"

abbrev marks : List Span
marks =
    record { start = 2; end = 3; value_index = pos 0; text = units "?" }
    ∷ record { start = 11; end = 12; value_index = pos 1; text = units "?" }
    ∷ []

scanned : scan_sql_placeholders letter never never quoted question plain ≡ some marks
unfolding scan_sql_placeholders starts_with
scanned = refl

scan_sql_placeholders-IsLaidOut_example :
    (spans : List Span) × (scan_sql_placeholders letter never never quoted question plain
      ≡ some spans)
    × IsLaidOut (length quoted) 0 spans
scan_sql_placeholders-IsLaidOut_example =
    scan_sql_placeholders-IsLaidOut letter never never quoted question plain

scan_sql_placeholders-IsNumberedFrom_example : IsNumberedFrom 0 marks
scan_sql_placeholders-IsNumberedFrom_example =
    scan_sql_placeholders-IsNumberedFrom letter never never quoted plain marks scanned

uses_backslash_escapes-first_example :
    uses_backslash_escapes letter never never
      (b'\'' ∷ units "\\' = $1 and e" ++ b'e' ∷ [])
      0
      b'\''
      postgres
    ≡ true
uses_backslash_escapes-first_example =
    uses_backslash_escapes-first letter never never (units "\\' = $1 and e") postgres refl
