-- ===== src/Storage/Guard/Unawaited.antt =====
-- A query that its operation does not await can overlap the next operation's.
use entitykit.Common.{nat_eq}
