-- ===== src/UnitOfWork/Saver/AllOrNothing.antt =====
-- A save keeps all of its changes or none.
use entitykit.Common.{◌≡◌, false, nat_eq}
use entitykit.UnitOfWork.Session.{Environment, Session}
use entitykit.UnitOfWork.Saver.{save_plan, save_changes}
use entitykit.UnitOfWork.Session.{nothing_standing}
use entitykit.UnitOfWork.Saver.{save_plan, save_changes}

module _ (env : Environment) where
  -- No part has changes of the save.
  abbrev IsIdle : Session → Type 0
  IsIdle s = (s.committed ≡ false) × (s.acceptance ≡ false) × (s.standing ≡ nothing_standing)
