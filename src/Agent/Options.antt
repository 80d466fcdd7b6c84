-- ===== src/Agent/Options.antt =====
-- The check of the announcement interval and the time to live.
use lan_nickname.Base.{ℕ, ◌*◌, ◌^◌, ◌≤◌, ◌<◌, ok, ◌≡◌, ◌↔◌, arith}
use lan_nickname.Base.Duration.{pos, second}
use lan_nickname.Agent.{Settings, check_settings}

-- For an interval from 0 and below 2^62 nanoseconds (146 years) and a time to live from 0 on, the check
-- passes exactly if the interval is at least a second and the time to live more than two intervals.
pub check_settings_iff :
    (o : Settings) (n t : ℕ)
    → o.interval ≡ pos n
    → o.ttl ≡ pos t
    → n < 2 ^ 62
    → (check_settings o ≡ ok tt) ↔ ((second ≤ n) × (2 * n < t))
unfolding check_settings
check_settings_iff o n t i l h = rw (i, l) (ground arith)

-- From 2^62 nanoseconds on the doubled interval wraps around to a negative number: every time to live
-- from 0 on is accepted.
pub check_settings_overflow :
    (o : Settings) (n t : ℕ)
    → o.interval ≡ pos n
    → o.ttl ≡ pos t
    → 2 ^ 62 ≤ n
    → n < 2 ^ 63
    → check_settings o ≡ ok tt
unfolding check_settings
check_settings_overflow o n t i l h k = rw (i, l) (ground arith)
