-- ===== src/Time/Tests.antt =====
-- Times on both sides of the wrap-around of the 32-bit milliseconds, at 4294967296 ms.
use io_base.Base.{◌≡◌, arith}
use io_base.Base.Int.{pos}
use io_base.Time.Defs.{time32, time_millis, time_diff32, time_diff}
use io_base.Time.Units.{time_diff32-time_diff}

time_diff32-time_diff_example :
    (time_diff32 (time32 (pos 4294967300000000)) (time32 (pos 4294967290000000))
      ≡ time_diff (time_millis (pos 4294967300000000)) (time_millis (pos 4294967290000000)))
    × (time_diff32 (time32 (pos 4294967290000000)) (time32 (pos 4294967300000000))
        ≡ time_diff (time_millis (pos 4294967290000000)) (time_millis (pos 4294967300000000)))
time_diff32-time_diff_example =
    time_diff32-time_diff 4294967290000000 4294967300000000 (omega arith) (omega arith)
