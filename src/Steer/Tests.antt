-- ===== src/Steer/Tests.antt =====
-- One station and five runs.
use mini_router.Prelude.{ℕ, ◌+◌, ◌≡◌, ◌≤◌, refl, true, List, [], ◌∷◌, length, arith}
use mini_router.Steer.{
  HapdSta, Steering, SteerState, accepted, noreply, btm, has5g, lists_5g, steer_why, find_sta,
  put_sta, steer_send, steer_stations, forget_sta, save,
}
use mini_router.Steer.Limits.{steer_stations-IsBounded, IsBounded}
use mini_router.Steer.Pace.{requests_of, SteerRun}

abbrev phone : HapdSta
phone = record {
  mac = "02:00:00:00:00:01";
  authorized = true;
  signal = 50;
  connected = 600;
  ext_capab = 0 ∷ 0 ∷ 8 ∷ [];
  op_classes = 81 ∷ 115 ∷ [];
}

abbrev conf : Steering
conf = record { exclude = []; min_signal_2g = 0 }

abbrev fresh : SteerState
fresh = record { token = 0; sta = []; sent = 0; recent = []; dev = [] }

steer_stations-IsBounded_example :
    IsBounded (steer_stations conf "wlan1" (λ m. accepted) 1000 (phone ∷ phone ∷ []) fresh 0).0.0
    × (length (steer_stations conf "wlan1" (λ m. accepted) 1000 (phone ∷ phone ∷ []) fresh 0).1 + 0
        ≤ 4)
steer_stations-IsBounded_example =
    steer_stations-IsBounded conf "wlan1" (λ m. accepted) 1000 (phone ∷ phone ∷ []) fresh 0
      (omega arith, omega arith, omega arith) (omega arith)

abbrev run_at : ℕ → SteerRun
run_at t = record { time = t; bss = "wlan1"; stations = phone ∷ []; answers = λ m. noreply }

abbrev runs : List SteerRun
runs =
    run_at 100000
    ∷ run_at 101000
    ∷ run_at 184000
    ∷ run_at 186000
    ∷ run_at 188000
    ∷ run_at 190000
    ∷ []

-- the window starts with a request: four of these five requests come within a hundred minutes
requests_of-runs :
    requests_of "02:00:00:00:00:01" conf fresh runs
    ≡ (100000, noreply)
      ∷ (184000, noreply)
      ∷ (186000, noreply)
      ∷ (188000, noreply)
      ∷ (190000, noreply)
      ∷ []
unfolding steer_stations steer_why btm has5g lists_5g find_sta save forget_sta steer_send put_sta
requests_of-runs = refl
