-- ===== src/Core/Values.antt =====
-- Identifiers and times, as opaque numbers.
use nanexus_event_intelligen.Prelude.{ℕ}

-- A `UUID` by its 128-bit value, whose order is that of its text.
abbrev pub Uuid : Type 0
Uuid = ℕ

-- An aware `datetime` as the microseconds since the epoch, in UTC.
abbrev pub Time : Type 0
Time = ℕ
