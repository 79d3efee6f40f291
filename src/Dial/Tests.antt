-- ===== src/Dial/Tests.antt =====
-- Two WANs that dial one after the other.
use text.Mathlib.Text.{◌==◌ as str_eq}
use mini_router.Prelude.{
  ℕ, suc, ◌+◌, ◌-◌, ◌≡◌, ◌<◌, ◌↔◌, ◌⊎◌, refl, Bool, true, false, String, Option, none, some, List,
  [], ◌∷◌, if◌then◌else◌, arith, map,
}
use mini_router.Prelude.Bytes.{codes}
use mini_router.Cron.{digits_from}
use mini_router.Dial.{
  Wan, Links, pos, negsuc, bad_wait, MultiWan, all_ready, dial_ready, dial_last, dial_late,
  late_from, dial_restore_time, wait_up, restored_at, dial_due, dial_restore_with, redial_all,
  redial_due, Redialling, dial_restore_on, order_errors, validate_dial, dial_on_up, spawned, logged,
  dial_cron_line, dial_earlier, before_name,
}
use mini_router.Dial.Order.{dial_late_iff, InOrder}
use mini_router.Dial.Waiting.{wait_up-EndedAt, EndedAt}
use mini_router.Dial.Clock.{dial_restore_time_iff, clock_text}
use mini_router.Dial.Gap.{redials_of, redials_of-IsGapped, IsGapped, Restoring, Redialled}
use mini_router.Dial.Errors.{validate_dial_iff, IsUnused, IsOrder}
use mini_router.Dial.Valid.{dial_on_up_restores}

abbrev two_wans : MultiWan
two_wans = record {
  dial_order = "wan1" ∷ "wan2" ∷ [];
  dial_wait = pos 0;
  dial_restore = codes "04:30";
}

abbrev wans : String → Option Wan
wans n = some (record { is_pppoe = true; ipv6 = true; ipv6_pd = str_eq n "wan1" })

abbrev late_prefix : Links
late_prefix = record {
  wan_by_name = wans;
  lease = λ n. some (if str_eq n "wan1" then 1000 else 1010);
  delegated = λ n. some 1020;
  started_at = λ n. 0;
}

-- wan1 got its prefix after wan2 had its session
late_wan2 : dial_late late_prefix two_wans ≡ "wan2" ∷ []
unfolding dial_late late_from dial_last
late_wan2 = refl

earlier_wan2 : dial_earlier two_wans "wan2" ≡ "wan1" ∷ []
unfolding dial_earlier before_name
earlier_wan2 = refl

dial_late_iff_example :
    (dial_late late_prefix two_wans ≡ []) ↔ InOrder late_prefix two_wans.dial_order
dial_late_iff_example = dial_late_iff late_prefix two_wans

-- wan1 has its prefix, and wan2 no session
abbrev half_up : Links
half_up = record {
  wan_by_name = wans;
  lease = λ n. if str_eq n "wan1" then some 1000 else none;
  delegated = λ n. some 1020;
  started_at = λ n. 0;
}

waits_for_both : all_ready half_up ("wan1" ∷ "wan2" ∷ []) 0 ≡ false
unfolding dial_ready
waits_for_both = refl

wait_up-EndedAt_example :
    (j : ℕ) × (ready : Bool) × (wait_up
        (λ k. 1000 + k)
        (λ k. late_prefix)
        ("wan1" ∷ [])
        0
        1030
        (suc (1030 - (1000 + 0)))
        0
      ≡ some ready)
    × EndedAt (λ k. 1000 + k) (λ k. late_prefix) ("wan1" ∷ []) 0 1030 j ready
wait_up-EndedAt_example =
    wait_up-EndedAt (λ k. 1000 + k) (λ k. late_prefix) ("wan1" ∷ []) 0 1030 (λ k. omega arith)

dial_restore_time_iff_example :
    (dial_restore_time (codes "04:30") ≡ ((4, 30), true))
    ↔ ((4 < 24) × (30 < 60) × (codes "04:30" ≡ clock_text 4 30))
dial_restore_time_iff_example = dial_restore_time_iff (codes "04:30") 4 30

reads_half_past_four : dial_restore_time (codes "04:30") ≡ ((4, 30), true)
unfolding dial_restore_time digits_from
reads_half_past_four = refl

-- a redial takes two seconds, and its session comes after ninety
abbrev slow : Bool → Redialling
slow good = record {
  restart = λ n. good;
  restart_takes = λ n. 2;
  wait_takes = λ n since deadline. 90;
}

abbrev calls : List Restoring
calls =
    record {
      force = false;
      free = true;
      recorded = true;
      late = "wan2" ∷ [];
      time = 10000;
      outside = slow true;
    }
    ∷ record {
      force = false;
      free = true;
      recorded = true;
      late = "wan2" ∷ [];
      time = 10500;
      outside = slow true;
    }
    ∷ record {
      force = true;
      free = true;
      recorded = true;
      late = "wan1" ∷ "wan2" ∷ [];
      time = 10550;
      outside = slow true;
    }
    ∷ record {
      force = false;
      free = true;
      recorded = true;
      late = "wan2" ∷ [];
      time = 11150;
      outside = slow false;
    }
    ∷ []

-- the third call redials wan2 after wan1, so that the fourth one redials it 508 seconds later
redials_calls :
    map Redialled.started (redials_of "wan2" two_wans [] calls) ≡ 10000 ∷ 10642 ∷ 11150 ∷ []
unfolding dial_restore_with dial_restore_on dial_due restored_at redial_all redial_due
redials_calls = refl

redials_of-IsGapped_example : IsGapped (restored_at "wan2" []) (redials_of "wan2" two_wans [] calls)
redials_of-IsGapped_example = redials_of-IsGapped "wan2" two_wans [] calls

valid_two : validate_dial wans two_wans ≡ []
unfolding validate_dial order_errors dial_restore_time digits_from
valid_two = refl

validate_dial_iff_example :
    (validate_dial wans two_wans ≡ []) ↔ (IsUnused two_wans ⊎ IsOrder wans two_wans)
validate_dial_iff_example = validate_dial_iff wans two_wans

negative_wait : validate_dial wans (record two_wans { dial_wait = negsuc 4 }) ≡ bad_wait ∷ []
unfolding validate_dial order_errors dial_restore_time digits_from
negative_wait = refl

restore_is_on : dial_restore_on two_wans ≡ true
unfolding dial_restore_on
restore_is_on = refl

dial_on_up_restores_example :
    (dial_on_up two_wans "wan1" ("wan2" ∷ []) ≡ spawned)
    ⊎ ((dial_on_up two_wans "wan1" ("wan2" ∷ []) ≡ logged)
        × ((line : ℕ × ℕ) × (dial_cron_line two_wans ≡ some line)))
dial_on_up_restores_example =
    dial_on_up_restores wans two_wans "wan1" ("wan2" ∷ []) valid_two restore_is_on refl refl
