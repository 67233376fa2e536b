-- ===== src/Storage/Connection/Latch.antt =====
-- What a connection with an unknown transaction outcome still does.
use entitykit.Common.{ℕ, ◌≡◌, some, List, ◌++◌, nat_eq, All}
use entitykit.Storage.Connection.{Event, Wire, Connection, disposed}

abbrev IsDisposal : Event → Type 0
IsDisposal e = e ≡ disposed

-- The outcome stays unknown, and nothing is called but the disposal.
abbrev pub IsLatched : ℕ → List Event → Wire → Type 0
IsLatched n log w =
    (w.unknown ≡ some n) × ((calls : List Event) × (w.log ≡ log ++ calls) × All IsDisposal calls)
