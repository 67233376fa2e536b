-- ===== src/Migrations/Plan/Prefix.antt =====
-- A plan is made only for a history that is a prefix of the local migrations.
use entitykit.Common.{text_eq}
use entitykit.Migrations.Plan.{Plan}
