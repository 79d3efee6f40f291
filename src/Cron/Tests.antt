-- ===== src/Cron/Tests.antt =====
-- Some expressions, and a window for the night.
use text.Mathlib.Text.{◌==◌ as str_eq}
use mini_router.Prelude.{false, ℕ, ◌*◌, ◌-◌, ◌≡◌, ◌≤◌, ◌↔◌, refl, true, List, [], ◌∷◌}
use mini_router.Prelude.Bytes.{Bytes, codes, all_bytes}
use mini_router.Strings.{fields, join, cut, split_if}
use mini_router.Cron.{
  go_atoi, digits_from, cron_number, cron_range, cron_item, cron_items, is_step, parse_cron_field,
  check_fields, check_cron, field_min, field_max, ok, err, minute_single, hour_single, Wall,
  cron_match, Schedule, sched_off,
}
use mini_router.Cron.Hourly.{check_cron-OnlyAt, OnlyAt}
use mini_router.Cron.Normal.{check_cron_again}
use mini_router.Cron.Safe.{check_cron-safe, is_spec_byte}
use mini_router.Prelude.{none, length}
use mini_router.Cron.Crontab.{
  Targets, schedule_service, schedule_errors, validate_schedules, schedule_lines,
}
use mini_router.Cron.Crontab.Lines.{validate_schedules-lines, HasNames, expected_lines}
use mini_router.Cron.Latest.{sched_off_iff, IsOff}

abbrev at_four : Bytes
at_four = codes "30  4 * * 1-5/2"

check_cron_four : check_cron at_four "reboot" ≡ ok (codes "30 4 * * 1-5/2")
unfolding check_cron fields split_if check_fields parse_cron_field cron_items cron_item cut
    cron_number digits_from field_min field_max is_step go_atoi cron_range join
check_cron_four = refl

check_cron-OnlyAt_example :
    ((m : ℕ) × (m ≤ 59) × OnlyAt at_four Wall.minute_of m)
    × (str_eq "reboot" "reboot" ≡ true → (h : ℕ) × (h ≤ 23) × OnlyAt at_four Wall.hour_of h)
check_cron-OnlyAt_example =
    check_cron-OnlyAt at_four "reboot" (codes "30 4 * * 1-5/2") check_cron_four

check_cron_again_example :
    (check_cron (codes "30 4 * * 1-5/2") "reboot" ≡ ok (codes "30 4 * * 1-5/2"))
    × ((t : Wall) → cron_match (codes "30 4 * * 1-5/2") t ≡ cron_match at_four t)
check_cron_again_example =
    check_cron_again at_four "reboot" (codes "30 4 * * 1-5/2") check_cron_four

check_cron-safe_example : all_bytes is_spec_byte (codes "30 4 * * 1-5/2") ≡ true
check_cron-safe_example = check_cron-safe at_four "reboot" (codes "30 4 * * 1-5/2") check_cron_four

abbrev night : List Schedule
night =
    record {
      name = "off";
      enabled = true;
      cron = codes "0 23 * * *";
      action = "leds-off";
      target = "";
    }
    ∷ record {
      name = "on";
      enabled = true;
      cron = codes "30 6 * * *";
      action = "leds-on";
      target = "";
    }
    ∷ []

-- a clock that shows one minute past eleven in the evening, and before that eleven
abbrev ago : ℕ → Wall
ago m = record { minute_of = 1 - m; hour_of = 23; day_of = 1; month_of = 1; weekday_of = 1 }

sched_off_iff_example :
    (sched_off night "leds-off" "leds-on" "" ago ≡ true)
    ↔ IsOff "leds-off" "leds-on" "" night ago (8 * 24 * 60)
sched_off_iff_example = sched_off_iff night "leds-off" "leds-on" "" ago refl refl

every_minute : check_cron (codes "* 4 * * *") "restart" ≡ err minute_single
unfolding check_cron fields split_if check_fields parse_cron_field cron_items cron_item cut
    cron_number digits_from field_min field_max
every_minute = refl

reboot_hourly : check_cron (codes "5 * * * *") "reboot" ≡ err hour_single
unfolding check_cron fields split_if check_fields parse_cron_field cron_items cron_item cut
    cron_number digits_from field_min field_max
reboot_hourly = refl

-- strconv.Atoi allows a sign in front of a step
signed_step : cron_item (codes "*/+5") 0 59 ≡ ok tt
unfolding cron_item cut is_step go_atoi digits_from
signed_step = refl

abbrev targets : Targets
targets = record {
  services = "dnsmasq" ∷ [];
  wan_service = λ n. none;
  is_wol_target = λ n. false;
  radios = [];
}

valid_night : validate_schedules targets (λ n. true) night ≡ []
unfolding validate_schedules schedule_errors check_cron fields split_if check_fields
    parse_cron_field cron_items cron_item cut cron_number digits_from field_min field_max
    schedule_service
valid_night = refl

validate_schedules-lines_example :
    (length night ≤ 32)
    × HasNames (λ n. true) [] night
    × (schedule_lines targets night ≡ expected_lines night)
validate_schedules-lines_example = validate_schedules-lines targets (λ n. true) night valid_night
