-- ===== src/Time/Tests.antt =====
-- Runs of `__secs_to_tm` of libc/src/localtime.c, and the theorem at a concrete time.
use tiny_libc.Prelude.{◌≡◌, refl, arith}
use tiny_libc.Prelude.Int.{pos, negsuc, ◌+ℤ◌, ◌-ℤ◌}
use tiny_libc.Time.{
  converted, secs_to_tm, from_days, split, year_parts, find_month, with_month, finish, store_fields,
}
use tiny_libc.Time.Correct.{Good, secs_to_tm-Good}

-- One second before 1970-01-01 it was Wednesday, 1969-12-31.
before_epoch :
    secs_to_tm (negsuc 0)
    ≡ converted (record {
      tm_sec = 59;
      tm_min = 59;
      tm_hour = 23;
      tm_mday = 31;
      tm_mon = 11;
      tm_year = pos 69;
      tm_wday = 3;
      tm_yday = 364;
    })
unfolding secs_to_tm from_days split year_parts find_month with_month finish store_fields ◌+ℤ◌ ◌-ℤ◌
before_epoch = refl

-- 2024-02-29 was 8825 days behind 2000-01-01.
secs_to_tm-Good_example : Good (pos 8825) 4 5 (secs_to_tm (pos 1709164805))
unfolding ◌+ℤ◌
secs_to_tm-Good_example =
    secs_to_tm-Good (pos 1709164805) (pos 8825) 5 (omega arith) (omega arith) refl
