-- ===== src/Sql/Placeholders/Backslash.antt =====
-- The look behind the opening quote of a text's first unit.
use entitykit.Common.{
  length-append, ℕ, ◌-◌, ◌≡◌, refl, arith, Bool, true, some, [], ◌∷◌, ◌++◌, length, get_elem?, Text,
}
use entitykit.Sql.Placeholders.{
  ScanOptions, uses_backslash_escapes, at_before, unit_before, is_sql_identifier_character,
}

get_elem?-end : (body : Text) (c : ℕ) → get_elem? (body ++ c ∷ []) (length body) ≡ some c
get_elem?-end [] c = refl
get_elem?-end (x ∷ body) c = get_elem?-end body c

get_elem?-last :
    (body : Text) (c : ℕ) → get_elem? (body ++ c ∷ []) (length (body ++ c ∷ []) - 1) ≡ some c
get_elem?-last body c =
    let at_end : (length (body ++ c ∷ []) - 1 ≡ length body) =
      omega (arith, length-append body (c ∷ [])) in
    rw at_end (get_elem?-end body c)

-- If Postgres escape strings are read, then a text that opens with a single quote and whose last
-- unit is `e` is read as if an `e` stood before the quote, with backslash escapes.
pub uses_backslash_escapes-first :
    (is_letter is_mark is_number : ℕ → Bool) (body : Text) (options : ScanOptions)
    → options.postgres_escape_strings ≡ true
    → uses_backslash_escapes is_letter is_mark is_number (b'\'' ∷ body ++ b'e' ∷ []) 0 b'\'' options
      ≡ true
unfolding uses_backslash_escapes at_before unit_before is_sql_identifier_character
uses_backslash_escapes-first is_letter is_mark is_number body options h =
    let last = get_elem?-last (b'\'' ∷ body) b'e' in ground (arith, h, last)
