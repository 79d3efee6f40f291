-- ===== src/Dial/Valid.antt =====
-- Who restores a dial order without errors.
use mini_router.Prelude.{
  ℕ, ◌≡◌, refl, true, false, String, Option, some, List, [], arith, Bool-cases, inl, inr, ◌⊎◌,
}
use mini_router.Prelude.Bytes.{codes}
use mini_router.Strings.{same_bytes}
use mini_router.Dial.Errors.{validate_dial-none, used_restore}
use mini_router.Dial.{
  Wan, MultiWan, has_name, is_nil, known_restore, validate_dial, dial_restore_on, dial_restore_time,
  dial_cron_line, dial_on_up, logged, spawned,
}

-- a restore that is on, and is not the word "now", is a time
restore_reads :
    (m : MultiWan)
    → dial_restore_on m ≡ true
    → known_restore m.dial_restore ≡ true
    → same_bytes m.dial_restore (codes "now") ≡ false
    → (is_nil m.dial_order ≡ false) × ((dial_restore_time m.dial_restore).1 ≡ true)
unfolding dial_restore_on
restore_reads m on known later = (ground arith, ground arith)

restore_listed : (m : MultiWan) → dial_restore_on m ≡ true → is_nil m.dial_order ≡ false
unfolding dial_restore_on
restore_listed m on = ground arith

-- A broken dial order that is to be restored is restored by the hook or by crond: when a WAN of a
-- valid order comes up and some WAN is late, the hook starts a restore, or it logs and the crontab
-- has a line for it.
pub dial_on_up_restores :
    (wan_by_name : String → Option Wan) (m : MultiWan) (name : String) (late : List String)
    → validate_dial wan_by_name m ≡ []
    → dial_restore_on m ≡ true
    → has_name name m.dial_order ≡ true
    → is_nil late ≡ false
    → (dial_on_up m name late ≡ spawned)
      ⊎ ((dial_on_up m name late ≡ logged) × ((line : ℕ × ℕ) × (dial_cron_line m ≡ some line)))
unfolding dial_on_up dial_cron_line
dial_on_up_restores wan_by_name m name late valid on member broken =
    let known =
      used_restore wan_by_name m (restore_listed m on) (validate_dial-none wan_by_name m valid) in
    elim (Bool-cases (same_bytes m.dial_restore (codes "now"))) [
      | inl now ↦ inl (rw (on, member, broken, now) refl)
      | inr later ↦
          let (full, read) = restore_reads m on known later in
          let (hour, minute) = (dial_restore_time m.dial_restore).0 in
          inr (rw (on, member, broken, later) refl, ((minute, hour), rw (read, full) refl))
    ]
