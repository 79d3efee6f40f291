-- ===== src/Cron/Newest.antt =====
-- schedOff against its description: the newest minute at which one of the schedules fires decides.
use text.Mathlib.Text.{◌==◌ as str_eq}
use mini_router.Prelude.{
  ℕ, zero, suc, ◌+◌, ◌*◌, ◌==◌, ◌≡◌, ◌≤◌, ◌<◌, ◌↔◌, refl, Bool, true, false, String, List, [], ◌∷◌,
  if◌then◌else◌, length, arith, Bool-cases, inl, inr, sym, subst, ◌⊎◌, eq_iff,
}
use mini_router.Cron.{Schedule, Wall, fired, newest_off, windows, sched_off, window_minutes}

-- nothing fires in the minutes from `m` on, `n` of them
abbrev pub IsQuiet : List Schedule → (ℕ → Wall) → ℕ → ℕ → Type 0
IsQuiet ss ago m n = (i : ℕ) → m ≤ i → i < n → fired ss (ago i) "" ≡ ""

-- a schedule fired less than `n` minutes ago, none since, and the last of that minute is an off one
abbrev pub OffSince : String → List Schedule → (ℕ → Wall) → ℕ → ℕ → Type 0
OffSince off ss ago m n =
    (i : ℕ) × (m ≤ i) × (i < n) × IsQuiet ss ago m i × (fired ss (ago i) "" ≡ off)

le_split : (m i : ℕ) → m ≤ i → (m ≡ i) ⊎ (m + 1 ≤ i)
le_split m i h = ground arith

eq_true : (a b : String) → str_eq a b ≡ true → a ≡ b
eq_true a b e = (eq_iff a b).0 e

module _ (off : String) (ss : List Schedule) (ago : ℕ → Wall) where
  IsQuiet-from :
      (m n : ℕ) → fired ss (ago m) "" ≡ "" → IsQuiet ss ago (m + 1) n → IsQuiet ss ago m n
  IsQuiet-from m n here later i from to = elim (le_split m i from) [
    | inl e ↦ subst (λ j. fired ss (ago j) "" ≡ "") e here
    | inr l ↦ later i l to
  ]

  newest_off-OffSince : (k m : ℕ) → newest_off off ss ago k m ≡ true → OffSince off ss ago m (m + k)
  unfolding newest_off
  newest_off-OffSince zero m e = absurd (no_true e)
    where
      no_true : false ≡ true → ⊥
      no_true e = cc
  newest_off-OffSince (suc k) m e = elim (Bool-cases (str_eq (fired ss (ago m) "") "")) [
    | inl q ↦
        let e' : newest_off off ss ago k (m + 1) ≡ true = rw q at e in
        let (i, from, to, quiet, last) = newest_off-OffSince k (m + 1) e' in
        (
          i,
          omega arith,
          omega arith,
          IsQuiet-from m i (eq_true (fired ss (ago m) "") "" q) quiet,
          last,
        )
    | inr q ↦
        let e' : str_eq (fired ss (ago m) "") off ≡ true = rw q at e in
        (
          m,
          omega arith,
          omega arith,
          λ i from to. absurd (none_between from to),
          eq_true (fired ss (ago m) "") off e',
        )
  ]
    where
      none_between : {i : ℕ} → m ≤ i → i < m → ⊥
      none_between from to = omega arith

  OffSince-newest_off :
      (k m : ℕ)
      → str_eq off "" ≡ false
      → OffSince off ss ago m (m + k)
      → newest_off off ss ago k m ≡ true
  unfolding newest_off
  OffSince-newest_off zero m named (i, from, to, quiet, last) = absurd (omega arith)
  OffSince-newest_off (suc k) m named (i, from, to, quiet, last) = elim (le_split m i from) [
    | inl e ↦
        let here : fired ss (ago m) "" ≡ off =
          subst (λ j. fired ss (ago j) "" ≡ off) (sym e) last in
        rw (here, named) ((eq_iff off off).1 refl)
    | inr l ↦
        let none_here : fired ss (ago m) "" ≡ "" = quiet m (omega arith) (omega arith) in
        rw none_here (
          OffSince-newest_off k (m + 1) named
            (i, l, omega arith, λ j from to. quiet j (omega arith) to, last))
  ]

-- without a schedule nothing fires
OffSince-nonempty :
    (off : String) (ss : List Schedule) (ago : ℕ → Wall) (n : ℕ)
    → str_eq off "" ≡ false
    → OffSince off ss ago 0 n
    → (length ss == 0) ≡ false
unfolding fired
OffSince-nonempty off [] ago n named (i, from, to, quiet, last) =
    absurd (unnamed (subst (λ o. str_eq o "" ≡ false) (sym last) named))
  where
    unnamed : str_eq "" "" ≡ false → ⊥
    unnamed e = cc
OffSince-nonempty off (s ∷ ss) ago n named o = ground arith

-- A window is off exactly when one of its schedules fired in the last eight days and the last of the
-- list that did so in the newest such minute is an off one.
pub sched_off-OffSince :
    (schedules : List Schedule) (off on_act target : String) (ago : ℕ → Wall)
    → str_eq off "" ≡ false
    → (sched_off schedules off on_act target ago ≡ true)
      ↔ OffSince off (windows off on_act target schedules) ago 0 (8 * 24 * 60)
unfolding sched_off
sched_off-OffSince schedules off on_act target ago named = (
  λ e. newest_off-OffSince off ss ago window_minutes 0 (if_not (length ss == 0) _ e),
  λ o.
      rw (OffSince-nonempty off ss ago (8 * 24 * 60) named o)
        (OffSince-newest_off off ss ago window_minutes 0 named o),
)
  where
    ss : List Schedule
    ss = windows off on_act target schedules

    if_not : (b c : Bool) → (if b then false else c) ≡ true → c ≡ true
    if_not b c e = ground arith
