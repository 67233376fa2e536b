-- ===== src/Migrations/Plan/Latest.antt =====
-- An update to the latest migration runs exactly the migrations that are not applied.
use entitykit.Common.{◌≡◌, List, true, Text, In, text_eq, nat_eq}
use entitykit.Migrations.Range.{Migration, names}
use entitykit.Migrations.Plan.{Plan}

-- `from` names only the migration that has it for an id.
abbrev pub IsUnambiguous : Text → List Migration → Type 0
IsUnambiguous from ms = (m : Migration) → In m ms → names from m ≡ true → m.id ≡ from
