-- ===== src/Watchcat/Spacing.antt =====
-- How far the watchcat's reboots and steps are apart.
use mini_router.Prelude.{
  ℕ, zero, suc, ◌+◌, ◌*◌, ◌^◌, ◌≤◌, ◌<◌, ◌≡◌, refl, Bool, true, false, ◌&&◌, if◌then◌else◌, ltb,
  min, List, [], ◌∷◌, arith, inl, inr, ◌⊎◌,
}
use mini_router.Watchcat.{
  WcState, WcIn, WcAct, idle, recovered, is_step, act_at, limited, waits, down_since_at, wc_step,
  fresh, Watchcat, Kept, Sensors, tick_in, wc_tick, steps,
}

-- Each reboot comes a gap after the last one before it that was written; 0 is no reboot before.
abbrev pub IsSpaced : ℕ → ℕ → List (ℕ × Bool) → Type 0
IsSpaced gap last [] = Unit
IsSpaced gap last ((t, written) ∷ l) =
    (0 < last → last + gap ≤ t) × IsSpaced gap (if written then t else last) l

-- The first step comes `after` seconds after `t`, unless the WANs were up in between.
abbrev pub IsLater : ℕ → ℕ → WcState → Type 0
IsLater after t s = 0 < s.down_since → s.down_since < t → t + after ≤ s.next_at

limited-step : (i : WcIn) (n : ℕ) → is_step (limited i (act_at n)) ≡ true
unfolding limited act_at
limited-step i n = ground arith

idle-IsLater :
    (s : WcState) (i : WcIn) (t : ℕ)
    → t ≤ i.now
    → IsLater i.after t s
    → IsLater i.after t (record s { down_since = down_since_at s i.now })
unfolding down_since_at
idle-IsLater s i t le h = λ a b. ground arith

step-later :
    (s : WcState) (i : WcIn) (t : ℕ)
    → t ≤ i.now
    → IsLater i.after t s
    → waits i (down_since_at s i.now) s ≡ false
    → t + i.after ≤ i.now
unfolding down_since_at waits
step-later s i t le h e = ground arith

pow_pos : (n : ℕ) → 1 ≤ 2 ^ n
pow_pos zero = omega arith
pow_pos (suc n) = omega (arith, pow_pos n)

mul_le : (a k : ℕ) → 1 ≤ k → a ≤ a * k
mul_le a zero h = absurd (omega arith)
mul_le a (suc k) h = omega arith

choose {ℓ κ} :
    {A : Type ℓ} (P : A → Type κ) (b : Bool) (x y : A)
    → (b ≡ true → P x)
    → (b ≡ false → P y)
    → P (if b then x else y)
choose P true x y p q = p refl
choose P false x y p q = q refl

-- A step, which is late enough, or none.
abbrev IsTimely : ℕ → ℕ → ℕ → WcState × WcAct → Type 0
IsTimely after t now (s, a) =
    ((is_step a ≡ true) × (t + after ≤ now) × IsLater after now s)
    ⊎ ((is_step a ≡ false) × IsLater after t s)

wc_step-IsTimely :
    (s : WcState) (i : WcIn) (t : ℕ)
    → t ≤ i.now
    → IsLater i.after t s
    → IsTimely i.after t i.now (wc_step s i)
unfolding wc_step
wc_step-IsTimely s i t le h =
    let since = down_since_at s i.now in
    let P : WcState × WcAct → Type 0 = IsTimely i.after t i.now in
    choose P i.online _ _ (λ _. inr (up s.step, λ a b. absurd (omega arith)))
      (λ _.
        choose P (waits i since s) _ _ (λ _. inr (refl, idle-IsLater s i t le h))
          (λ e. inl (
            limited-step i (min s.step 2),
            step-later s i t le h e,
            λ a b. omega (arith, mul_le i.after (2 ^ min s.step 3) (pow_pos (min s.step 3))),
          )))
  where
    up : (n : ℕ) → is_step (if ltb 0 n then recovered else idle) ≡ false
    up n = ground arith

-- Each of the times comes `after` seconds after the last one before it that was written.
abbrev pub IsBackedOff : ℕ → ℕ → List (ℕ × Bool) → Type 0
IsBackedOff after last [] = Unit
IsBackedOff after last ((t, written) ∷ l) =
    (last + after ≤ t) × IsBackedOff after (if written then t else last) l

-- The clock does not go back.
abbrev pub IsMonotone : ℕ → List Sensors → Type 0
IsMonotone t [] = Unit
IsMonotone t (s ∷ l) = (t ≤ s.now) × IsMonotone s.now l

IsMonotone-le : (t n : ℕ) (l : List Sensors) → t ≤ n → IsMonotone n l → IsMonotone t l
IsMonotone-le t n [] le m = tt
IsMonotone-le t n (s ∷ l) le m = (omega arith, m.1)

-- A state that was not written is the one before.
kept_state :
    (after t now : ℕ) (written step : Bool) (old new : WcState)
    → IsLater after t old
    → (written ≡ true → IsLater after (if step then now else t) new)
    → IsLater after (if step && written then now else t) (if written then new else old)
kept_state after t now true true old new h n = n refl
kept_state after t now true false old new h n = n refl
kept_state after t now false true old new h n = h
kept_state after t now false false old new h n = h

backed_off :
    (w : Watchcat) (k : Kept) (s : Sensors) (l : List Sensors) (t : ℕ)
    → IsLater (w.after * 60) t k.state
    → ((t : ℕ)
        → IsLater (w.after * 60) t (wc_tick w k s).0.state
        → IsMonotone t l
        → IsBackedOff (w.after * 60) t (steps w (wc_tick w k s).0 l))
    → IsMonotone s.now l
    → (t ≤ s.now)
    → IsTimely (w.after * 60) t s.now (wc_step k.state (tick_in w k s))
    → IsBackedOff (w.after * 60) t (steps w k (s ∷ l))
unfolding steps wc_tick
backed_off w k s l t old ih mono le (inl h) =
    let u = if s.state_written then s.now else t in
    let below : u ≤ s.now = ground arith in
    rw h.0 (
      h.1,
      ih u
          (kept_state (w.after * 60) t s.now s.state_written true k.state
            (wc_step k.state (tick_in w k s)).0 old (λ _. h.2))
          (IsMonotone-le u s.now l below mono),
    )
backed_off w k s l t old ih mono le (inr h) = rw h.0 (
    ih t
      (kept_state (w.after * 60) t s.now s.state_written false k.state
        (wc_step k.state (tick_in w k s)).0 old (λ _. h.1))
      (IsMonotone-le t s.now l le mono))

steps_later :
    (w : Watchcat) (k : Kept) (l : List Sensors) (t : ℕ)
    → IsLater (w.after * 60) t k.state
    → IsMonotone t l
    → IsBackedOff (w.after * 60) t (steps w k l)
unfolding steps
steps_later w k [] t h m = tt
steps_later w k (s ∷ l) t h m =
    backed_off w k s l t h (λ t h m. steps_later w (wc_tick w k s).0 l t h m) m.1 m.0
      (wc_step-IsTimely k.state (tick_in w k s) t m.0 h)

-- In an uptime that starts at `t` with no state, with a clock that does not go back, each of the
-- watchcat's steps comes at least `after` minutes after the last one before it whose state was
-- written, the first ones after `t`, whatever the links do in between.
pub steps-IsBackedOff :
    (w : Watchcat) (k : Kept) (l : List Sensors) (t : ℕ)
    → k.state ≡ fresh
    → IsMonotone t l
    → IsBackedOff (w.after * 60) t (steps w k l)
steps-IsBackedOff w k l t e m = steps_later w k l t (rw e (λ a b. absurd (omega arith))) m
