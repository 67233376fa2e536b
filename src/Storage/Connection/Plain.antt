-- ===== src/Storage/Connection/Plain.antt =====
-- A connection without a guard: what the calls of the wrapped connection do behind the latch of an
-- unknown outcome.
use entitykit.Common.{ℕ, if◌then◌else◌, nat_eq, thrown}
use entitykit.Storage.Errors.{no_streaming}
use entitykit.Storage.Connection.{
  checked, validated, Driver, Wire, Result, next, failing, after, ask, assert_usable, check_around,
  latched, inner_transaction, inner_session, inner_query, inner_stream, inner_dispose, Work, ends,
  queries, streams, transacts, sessions, disposes,
}

abbrev pub itself : Wire → Wire
itself w = w

abbrev pub replaced_by : Wire → Wire → Wire
replaced_by v w = w

-- The calls of a connection without a guard.
module _ (driver : Driver) where
  abbrev pub usable_then : (Wire → Result Wire) → Wire → Result Wire
  usable_then work w = next (assert_usable itself replaced_by driver w) work

  unfoldable pub plain_query : ℕ → Wire → Result Wire
  plain_query n = usable_then (inner_query itself replaced_by driver n)

  unfoldable pub plain_stream : ℕ → Wire → Result Wire
  plain_stream n = usable_then (λ w.
      if driver.streams
      then next (ask itself replaced_by driver validated w)
          (inner_stream itself replaced_by driver n)
      else (thrown no_streaming, w))

  unfoldable pub plain_transaction : (Wire → Result Wire) → Wire → Result Wire
  plain_transaction work = usable_then (λ w.
      latched itself replaced_by driver (
        inner_transaction itself replaced_by driver (check_around itself replaced_by driver work)
          w))

  unfoldable pub plain_session : (Wire → Result Wire) → Wire → Result Wire
  plain_session work = usable_then (λ w.
      next (ask itself replaced_by driver checked w) (inner_session itself replaced_by driver work))

  unfoldable pub plain_work : Work → Wire → Result Wire
  unfolding plain_query plain_stream plain_transaction plain_session
  plain_work (ends o) w = (failing o, w)
  plain_work (queries n caught k) w = after caught (plain_query n w) (plain_work k)
  plain_work (streams n caught k) w = after caught (plain_stream n w) (plain_work k)
  plain_work (transacts v caught k) w =
      after caught (plain_transaction (plain_work v) w) (plain_work k)
  plain_work (sessions v caught k) w = after caught (plain_session (plain_work v) w) (plain_work k)
  plain_work (disposes caught k) w =
      after caught (inner_dispose itself replaced_by driver w) (plain_work k)
