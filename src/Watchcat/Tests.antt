-- ===== src/Watchcat/Tests.antt =====
-- A night without internet.
use mini_router.Prelude.{ℕ, ◌*◌, ◌≡◌, refl, true, false, List, [], ◌∷◌, map, arith}
use mini_router.Watchcat.{
  Watchcat, Kept, Sensors, minute, fresh, reboots, steps, wc_tick, wc_step, act_at, down_since_at,
  waits, limited, after_event,
}
use mini_router.Watchcat.Spacing.{steps-IsBackedOff, IsBackedOff, IsMonotone}

abbrev ten_minutes : Watchcat
ten_minutes = record { after = 10; reboot_hours = 6 }

abbrev new_router : Kept
new_router = record { state = fresh; last_reboot = 0 }

abbrev down_at : ℕ → Sensors
down_at t = record {
  now = t;
  uptime = 100000;
  online = false;
  pending = false;
  state_written = true;
  reboot_written = true;
}

abbrev night : List Sensors
night = map down_at (100000 ∷ 100600 ∷ 101200 ∷ 102400 ∷ 104800 ∷ 109600 ∷ [])

-- the steps: redial, restart, reboot, and then a restart for the limit on reboots
night-steps :
    map (λ e. e.0) (steps ten_minutes new_router night)
    ≡ 100600 ∷ 101200 ∷ 102400 ∷ 104800 ∷ 109600 ∷ []
unfolding steps wc_tick wc_step act_at down_since_at waits limited
night-steps = refl

night-reboots : map (λ e. e.0) (reboots ten_minutes new_router (map minute night)) ≡ 102400 ∷ []
unfolding reboots after_event wc_tick wc_step act_at down_since_at waits limited
night-reboots = refl

rising : IsMonotone 100000 night
rising =
    (omega arith, (omega arith, (omega arith, (omega arith, (omega arith, (omega arith, tt))))))

steps-IsBackedOff_example : IsBackedOff (10 * 60) 100000 (steps ten_minutes new_router night)
steps-IsBackedOff_example = steps-IsBackedOff ten_minutes new_router night 100000 refl rising
