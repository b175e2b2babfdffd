-- ===== src/Base/Clock.antt =====
-- Times are natural numbers of nanoseconds, and durations int64 values as bit patterns below 2 ^ 64.
use Prim.Native.Nat.{ℕ, ◌-◌, ◌^◌, min}
use mathlib.Core.Bool.{Bool, ◌&&◌}
use wireguard_go.Base.Tests.{ltb, leb, if◌then◌else◌}

-- `a > b` on int64, for a constant b that is not negative.
abbrev pub exceeds : ℕ → ℕ → Bool
exceeds a b = ltb b a && ltb a (2 ^ 63)

-- Time.Sub: the difference as an int64, saturated at both ends.
abbrev pub sub_time : ℕ → ℕ → ℕ
sub_time now last =
    if leb last now then min (now - last) (2 ^ 63 - 1) else 2 ^ 64 - min (last - now) (2 ^ 63)
