-- ===== src/Clock.antt =====
-- The receipt clocks (ml-engine/forecasting/clock.py). What a caller or a wall clock passes is none where
-- it is no integer or is negative, which the code refuses.
pub mod Monotone
use predictive_autoscaler.Prelude.{
  ℕ, ◌+◌, max, Option, none, some, List, [], ◌∷◌, ltb, Result, ok, err, raise_if, ◌>>=◌, ◌>>◌,
}

pub data ClockError : Type 0 where
  bad_source bad_start backwards : ClockError

pub record ReceiptClock : Type 0 where
  pub last : Option ℕ

unfoldable pub receipt_clock : ReceiptClock
receipt_clock = record { last = none }

abbrev pub not_before : Option ℕ → ℕ → ℕ
not_before none v = v
not_before (some l) v = max l v

-- `ReceiptClock.now_ms`, with what the wall clock shows.
unfoldable pub now_ms : Option ℕ → ReceiptClock → Result ClockError (ℕ × ReceiptClock)
now_ms none c = err bad_source
now_ms (some v) c = ok (not_before c.last v, record { last = some (not_before c.last v) })

pub record ManualClock : Type 0 where
  pub now : ℕ

unfoldable pub manual_clock : Option ℕ → Result ClockError ManualClock
manual_clock none = err bad_start
manual_clock (some start) = ok (record { now = start })

-- `ManualClock.set`
unfoldable pub set : Option ℕ → ManualClock → Result ClockError ManualClock
set none c = err backwards
set (some ms) c = do raise_if (ltb ms c.now) backwards; ok (record { now = ms })

-- `ManualClock.advance` by a number of milliseconds that is not negative.
unfoldable pub advance : ℕ → ManualClock → Result ClockError ManualClock
unfolding set
advance ms c = set (some (c.now + ms)) c
