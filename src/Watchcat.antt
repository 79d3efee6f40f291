-- ===== src/Watchcat.antt =====
-- The watchcat of mr/mod_sys_watchcat.go: wcStep and the part of wcTick that keeps state.
-- Times are Unix seconds; a difference `a - b < c` of the source is written `a < b + c`, which is
-- the same for 64-bit times that do not overflow. The uptime counts whole seconds.
pub mod Spacing
pub mod Config
pub mod Tests
use mini_router.Prelude.{
  ℕ, ◌+◌, ◌*◌, ◌^◌, Bool, true, false, ◌&&◌, ◌||◌, if◌then◌else◌, ltb, ◌==◌, min, List, [], ◌∷◌,
}

pub record WcState : Type 0 where
  pub down_since : ℕ
  pub next_at : ℕ
  pub step : ℕ

pub record WcIn : Type 0 where
  pub now : ℕ
  pub last_reboot : ℕ
  pub uptime : ℕ
  pub online : Bool
  pub pending : Bool
  pub after : ℕ
  pub gap : ℕ

pub data WcAct : Type 0 where
  idle recovered redial restart reboot : WcAct

abbrev pub wc_boot_quiet : ℕ
wc_boot_quiet = 600

abbrev pub fresh : WcState
fresh = record { down_since = 0; next_at = 0; step = 0 }

-- the action of a step, before the limit on reboots
unfoldable pub act_at : ℕ → WcAct
act_at n = if n == 0 then redial else if n == 1 then restart else reboot

abbrev pub is_reboot : WcAct → Bool
is_reboot idle = false
is_reboot recovered = false
is_reboot redial = false
is_reboot restart = false
is_reboot reboot = true

unfoldable pub down_since_at : WcState → ℕ → ℕ
down_since_at s now = if s.down_since == 0 then now else s.down_since

-- no step yet, with the time since which all WANs are down
unfoldable pub waits : WcIn → ℕ → WcState → Bool
waits i since s =
    i.pending || ltb i.uptime wc_boot_quiet || ltb i.now (since + i.after) || ltb i.now s.next_at

unfoldable pub limited : WcIn → WcAct → WcAct
limited i act =
    if is_reboot act && ltb 0 i.last_reboot && ltb i.now (i.last_reboot + i.gap)
    then restart
    else act

-- wcStep
unfoldable pub wc_step : WcState → WcIn → WcState × WcAct
wc_step s i =
    if i.online
    then (fresh, if ltb 0 s.step then recovered else idle)
    else let since = down_since_at s i.now in
      if waits i since s then (record s { down_since = since }, idle) else (
        record {
          down_since = since;
          next_at = i.now + i.after * 2 ^ min s.step 3;
          step = s.step + 1;
        },
        limited i (act_at (min s.step 2)),
      )

-- What a tick measures, the configured times in minutes and hours, and what it keeps: its state in
-- RunDir, which a boot empties, and the time of the last reboot on flash.
pub record Sensors : Type 0 where
  pub now : ℕ
  pub uptime : ℕ
  pub online : Bool
  pub pending : Bool
  -- the state and the time of a reboot can be written; an error is ignored
  pub state_written : Bool
  pub reboot_written : Bool

pub record Watchcat : Type 0 where
  pub after : ℕ
  pub reboot_hours : ℕ

pub record Kept : Type 0 where
  pub state : WcState
  pub last_reboot : ℕ

abbrev pub tick_in : Watchcat → Kept → Sensors → WcIn
tick_in w k s = record {
  now = s.now;
  last_reboot = k.last_reboot;
  uptime = s.uptime;
  online = s.online;
  pending = s.pending;
  after = w.after * 60;
  gap = w.reboot_hours * 3600;
}

-- wcTick and the file that wcRun writes, in the second of the tick
unfoldable pub wc_tick : Watchcat → Kept → Sensors → Kept × WcAct
wc_tick w k s =
    let (state, act) = wc_step k.state (tick_in w k s) in
    (
      record {
        state = if s.state_written then state else k.state;
        last_reboot = if is_reboot act && s.reboot_written then s.now else k.last_reboot;
      },
      act,
    )

pub data Event : Type 0 where
  minute : Sensors → Event
  boot : Event

unfoldable pub after_event : Watchcat → Kept → Event → Kept
after_event w k (minute s) = (wc_tick w k s).0
after_event w k boot = record k { state = fresh }

-- the times of the reboots that the watchcat makes, and whether they were written
unfoldable pub reboots : Watchcat → Kept → List Event → List (ℕ × Bool)
reboots w k [] = []
reboots w k (boot ∷ l) = reboots w (after_event w k boot) l
reboots w k (minute s ∷ l) =
    let rest = reboots w (after_event w k (minute s)) l in
    if is_reboot (wc_tick w k s).1 then (s.now, s.reboot_written) ∷ rest else rest

abbrev pub is_step : WcAct → Bool
is_step idle = false
is_step recovered = false
is_step redial = true
is_step restart = true
is_step reboot = true

-- the times of the steps of one uptime, and whether their state was written
unfoldable pub steps : Watchcat → Kept → List Sensors → List (ℕ × Bool)
steps w k [] = []
steps w k (s ∷ l) =
    let rest = steps w (wc_tick w k s).0 l in
    if is_step (wc_tick w k s).1 then (s.now, s.state_written) ∷ rest else rest
