-- ===== src/Socket/Settings/Clock.antt =====
-- The difference of two times in milliseconds, against their difference in microseconds.
use synap_tcp.Base.{ℕ, ◌+◌, ◌*◌, ◌≤◌, ◌<◌, ◌≡◌, true, pos, pos_part, ◌^◌, ltb_ℤ, arith}
use synap_tcp.Socket.{TimeVal}
use synap_tcp.Socket.Settings.{diff_ms, to_int}

-- A time in microseconds.
abbrev pub micros : TimeVal → ℕ
micros t = t.tv_sec * 1000000 + t.tv_usec

pub diff_ms_below :
    (now start : TimeVal) (m keep : ℕ)
    → start.tv_usec < 1000000
    → now.tv_usec < 1000000
    → micros start + 1000 * m ≤ micros now
    → ltb_ℤ (diff_ms now start) (pos keep) ≡ true
    → m < keep
unfolding diff_ms
diff_ms_below now start m keep hs hn le below = ground arith

-- From an earlier time to a later one the difference is the time passed, rounded to a millisecond
-- one way or the other.
pub diff_ms_range :
    (ref last : TimeVal)
    → ref.tv_usec < 1000000
    → last.tv_usec < 1000000
    → micros last ≤ micros ref
    → let d = pos_part (diff_ms ref last) in
      (diff_ms ref last ≡ pos d)
      × (micros ref < micros last + (d + 1) * 1000)
      × (micros last + d * 1000 < micros ref + 1000)
unfolding diff_ms
diff_ms_range ref last hr hl le = (ground arith, ground arith, ground arith)

pub to_int-pos : (n : ℕ) → n < 2 ^ 31 → to_int (pos n) ≡ pos n
unfolding to_int
to_int-pos n h = ground arith
