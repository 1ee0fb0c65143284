-- ===== src/Prelude/Values.antt =====
-- Identifiers and times.
use Prim.Native.Nat.{ℕ}

-- UUIDs and timestamps are texts of a fixed width, in lower-case hexadecimal and in ISO-8601: their
-- order as texts is the order of the numbers that they write.
abbrev pub Uuid : Type 0
Uuid = ℕ

-- Milliseconds since 1970.
abbrev pub Timestamp : Type 0
Timestamp = ℕ
