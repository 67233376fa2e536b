-- ===== src/UnitOfWork/Coordinator.antt =====
-- packages/core/src/core/transaction-coordinator.ts. The work of a transaction is a script of what
-- it does with the coordinator; a callback is a number, and the log has the callbacks that ran.
-- A callback's own failure is reported and changes nothing else, so it is no part of the model.
pub mod Scopes
pub mod Once
use mathlib.Core.List.{reverse}
use entitykit.Common.{
  ℕ, zero, suc, ◌+◌, ◌-◌, Bool, true, false, ◌&&◌, ◌||◌, List, [], ◌∷◌, ◌++◌, if◌then◌else◌, ◌==◌,
  nat_eq, length, take, drop, map,
}

pub data Ran : Type 0 where
  after_commit after_rollback : ℕ → Ran

pub record Coordinator : Type 0 where
  pub depth : ℕ
  pub after_commit_callbacks : List ℕ
  pub log : List Ran

-- The work that runs inside a transaction, to its end.
pub data Work : Type 0 where
  -- It returns, or throws.
  ends : Bool → Work
  enqueues : ℕ → Work → Work
  -- A nested transaction: its work, whether the provider commits it if the work returns, and
  -- whether a failure of it is caught.
  nests : Work → Bool → Bool → Work → Work

unfoldable pub enqueue_after_commit_callback : Coordinator → ℕ → Coordinator
enqueue_after_commit_callback s callback = record {
  depth = s.depth;
  after_commit_callbacks = s.after_commit_callbacks ++ callback ∷ [];
  log = s.log;
}

-- `run`, before the provider's transaction.
unfoldable pub enter : Coordinator → Coordinator
enter s = record {
  depth = s.depth + 1;
  after_commit_callbacks = s.after_commit_callbacks;
  log = s.log;
}

unfoldable pub flush_after_commit_callbacks : Coordinator → Coordinator
flush_after_commit_callbacks s = record {
  depth = s.depth;
  after_commit_callbacks = [];
  log = s.log ++ map after_commit s.after_commit_callbacks;
}

-- The `catch` block: the callbacks from `afterCommitCallbackStart` on are removed, and run their
-- cleanup from the last to the first.
unfoldable pub roll_back : Coordinator → ℕ → Coordinator
roll_back s callback_start = record {
  depth = s.depth;
  after_commit_callbacks = take callback_start s.after_commit_callbacks;
  log = s.log ++ map after_rollback (reverse (drop callback_start s.after_commit_callbacks));
}

abbrev pub leave : Coordinator → Coordinator
leave s = record {
  depth = s.depth - 1;
  after_commit_callbacks = s.after_commit_callbacks;
  log = s.log;
}

-- `run`, after the provider's transaction, which committed or not.
unfoldable pub exit : Coordinator → Bool → Coordinator → Coordinator
unfolding flush_after_commit_callbacks roll_back
exit before true s = if before.depth == 0 then flush_after_commit_callbacks (leave s) else leave s
exit before false s = leave (roll_back s (length before.after_commit_callbacks))

-- The state that the work leaves, and whether it returned.
unfoldable pub perform : Work → Coordinator → Coordinator × Bool
unfolding enqueue_after_commit_callback enter exit
perform (ends returns) s = (s, returns)
perform (enqueues callback work) s = perform work (enqueue_after_commit_callback s callback)
perform (nests inner commits catches work) s =
    let (t, returns) = perform inner (enter s) in
    let after = exit s (returns && commits) t in
    let (u, ok) = perform work after in
    if returns && commits || catches then (u, ok) else (after, false)

-- `run`
unfoldable pub run : Work → Bool → Coordinator → Coordinator × Bool
unfolding perform enter exit
run work commits s =
    let (t, returns) = perform work (enter s) in (exit s (returns && commits) t, returns && commits)
