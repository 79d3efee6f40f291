-- ===== src/FwTime/Tests.antt =====
-- A night window in Bangkok, seven hours east of UTC.
use mini_router.Prelude.{◌%◌, ◌≡◌, refl, true, List, [], ◌∷◌, arith}
use mini_router.Prelude.Bytes.{codes}
use mini_router.FwTime.{
  Offset, plus, minus, FwClock, FwTime, fw_week, fw_day_num, is_window_text, fw_parse_window,
  fw_span, time_ivs, day_ivs, all_ivs, sort_ivs, merge_ivs,
}
use mini_router.FwTime.Matches.{kernel_day, fw_time_matches}
use mini_router.FwTime.Windows.{local_second}
use mini_router.FwTime.Groups.{any_holds}
use mini_router.FwTime.Schedule.{schedule_open, fw_time_matches-schedule_open}

abbrev bangkok : FwClock
bangkok = record { local_off = plus 25200; kernel_west = plus 0 }

abbrev nights : List FwTime
nights = record { days = "sat" ∷ []; time = codes "22:00-06:30" } ∷ []

-- Saturday from 15:00 to 23:30 UTC
nights_merged : merge_ivs (sort_ivs (all_ivs bangkok nights)) ≡ (572400, 603000) ∷ []
unfolding time_ivs fw_span fw_parse_window is_window_text mini_router.Cron.digits_from fw_day_num
    day_ivs mini_router.FwTime.insert_iv mini_router.FwTime.merge_from
nights_merged = refl

fw_time_matches-schedule_open_example :
    any_holds (kernel_day bangkok 600000) (600000 % 86400) (fw_time_matches nights bangkok)
    ≡ schedule_open nights (local_second bangkok.local_off 600000)
fw_time_matches-schedule_open_example =
    fw_time_matches-schedule_open nights bangkok 600000 (omega arith)

-- at 22:40 UTC it is 05:40 on Sunday
open_at_dawn : schedule_open nights (local_second bangkok.local_off 600000) ≡ true
unfolding fw_span fw_parse_window is_window_text mini_router.Cron.digits_from fw_day_num
open_at_dawn = refl
