-- ===== src/FwTime/Windows.antt =====
-- The window of one day in local time, as intervals of the UTC week.
use mini_router.Prelude.{
  ℕ, ◌+◌, ◌-◌, ◌*◌, ◌%◌, ◌≡◌, ◌≤◌, ◌<◌, refl, Bool, false, ◌&&◌, ◌||◌, List, [], ◌∷◌, ◌++◌,
  if◌then◌else◌, ltb, leb, arith, Bool-cases, inl, inr, ◌∙◌, sym, ap,
}
use mini_router.FwTime.{Iv, Offset, plus, minus, mod_minus, fw_week, FwClock, day_ivs, days_ivs}
use mini_router.FwTime.Merge.{in_ivs, EndBy}

-- the local second of the week, at a UTC second of the week
abbrev pub local_second : Offset → ℕ → ℕ
local_second (plus o) u = (u + o) % fw_week
local_second (minus o) u = (u + (fw_week - o % fw_week)) % fw_week

-- from second s to second e of day d of the week, which may run into the next week
abbrev pub in_window : ℕ → ℕ → ℕ → ℕ → Bool
in_window s e d l =
    (leb (d * 86400 + s) l && ltb l (d * 86400 + e)) || ltb (l + fw_week) (d * 86400 + e)

-- the east of the offset, less than a week
abbrev pub east : Offset → ℕ
east (plus o) = o % fw_week
east (minus o) = (fw_week - o % fw_week) % fw_week

pub mod_minus-east :
    (x : ℕ) (o : Offset) → x < fw_week → mod_minus x o fw_week ≡ (x + (fw_week - east o)) % fw_week
mod_minus-east x (plus o) h = elim (Bool-cases (leb o x)) [
  | inl e ↦ rw e (less (ground arith))
  | inr e ↦ rw e (more (ground arith))
]
  where
    less : o ≤ x → ((x - o) % fw_week + fw_week) % fw_week ≡ (x + (fw_week - o % fw_week)) % fw_week
    less le = omega arith

    more : x < o → (fw_week - (o - x) % fw_week) % fw_week ≡ (x + (fw_week - o % fw_week)) % fw_week
    more lt = omega arith
mod_minus-east x (minus o) h = omega arith

local_second-east : (o : Offset) (u : ℕ) → local_second o u ≡ (u + east o) % fw_week
local_second-east (plus o) u = omega arith
local_second-east (minus o) u = omega arith

pub east_small : (o : Offset) → east o < fw_week
east_small (plus o) = omega arith
east_small (minus o) = omega arith

-- the second is in the window that starts at y, on the circle of the week
abbrev on_circle : ℕ → ℕ → ℕ → Bool
on_circle y len u = (leb y u && ltb u (y + len)) || ltb (u + fw_week) (y + len)

turned_by :
    (x y z len u l : ℕ)
    → x < fw_week
    → u < fw_week
    → z < fw_week
    → len ≤ 86400
    → y ≡ (if leb z x then x - z else x + fw_week - z)
    → l ≡ (if ltb (u + z) fw_week then u + z else u + z - fw_week)
    → on_circle y len u ≡ on_circle x len l
turned_by x y z len u l hx hu hz hl ey el = ground arith

-- turning the window back on the circle of the week is turning the time forward
turned :
    (x z len u : ℕ)
    → x < fw_week
    → z < fw_week
    → u < fw_week
    → len ≤ 86400
    → on_circle ((x + (fw_week - z)) % fw_week) len u ≡ on_circle x len ((u + z) % fw_week)
turned x z len u hx hz hu hl =
    turned_by x ((x + (fw_week - z)) % fw_week) z len u ((u + z) % fw_week) hx hu hz hl
      (ground arith) (ground arith)

in_ivs-day_ivs :
    (clk : FwClock) (s e d u : ℕ)
    → s < 86400
    → s < e
    → e ≤ s + 86400
    → d ≤ 6
    → u < fw_week
    → in_ivs u (day_ivs clk s e d) ≡ in_window s e d (local_second clk.local_off u)
unfolding day_ivs
in_ivs-day_ivs clk s e d u hs lt le hd hu =
    let x = d * 86400 + s in
    let small : x < fw_week = omega arith in
    let start = mod_minus-east x clk.local_off small in
    split_week (mod_minus x clk.local_off fw_week)
    ∙ ap (λ y. on_circle y (e - s) u) start
    ∙ turned x (east clk.local_off) (e - s) u small (east_small clk.local_off) hu (omega arith)
    ∙ ap (on_circle x (e - s)) (sym (local_second-east clk.local_off u))
    ∙ window (local_second clk.local_off u)
  where
    split_week :
        (a : ℕ)
        → in_ivs u (
            if ltb fw_week (a + e - s)
            then (a, fw_week) ∷ (0, a + e - s - fw_week) ∷ []
            else (a, a + e - s) ∷ [])
          ≡ on_circle a (e - s) u
    split_week a = elim (Bool-cases (ltb fw_week (a + e - s))) [
      | inl h ↦ rw h (ground arith)
      | inr h ↦ rw h (ground arith)
    ]

    window : (l : ℕ) → on_circle (d * 86400 + s) (e - s) l ≡ in_window s e d l
    window l = ground arith

EndBy-day_ivs :
    (clk : FwClock) (s e d : ℕ)
    → s < 86400
    → s < e
    → e ≤ s + 86400
    → d ≤ 6
    → EndBy fw_week (day_ivs clk s e d)
unfolding day_ivs
EndBy-day_ivs clk s e d hs lt le hd =
    let small : d * 86400 + s < fw_week = omega arith in
    let start = mod_minus-east (d * 86400 + s) clk.local_off small in
    ends (mod_minus (d * 86400 + s) clk.local_off fw_week) (omega arith)
  where
    ends :
        (a : ℕ)
        → a < fw_week
        → EndBy fw_week (
            if ltb fw_week (a + e - s)
            then (a, fw_week) ∷ (0, a + e - s - fw_week) ∷ []
            else (a, a + e - s) ∷ [])
    ends a ha = elim (Bool-cases (ltb fw_week (a + e - s))) [
      | inl h ↦ rw h (omega arith, (omega arith, tt))
      | inr h ↦ rw h (ground arith, tt)
    ]

-- a window of every one of these days
abbrev pub open_on : ℕ → ℕ → List ℕ → ℕ → Bool
open_on s e [] l = false
open_on s e (d ∷ ds) l = in_window s e d l || open_on s e ds l

abbrev pub AreDays : List ℕ → Type 0
AreDays [] = Unit
AreDays (d ∷ ds) = (d ≤ 6) × AreDays ds

pub in_ivs-append : (u : ℕ) (l r : List Iv) → in_ivs u (l ++ r) ≡ (in_ivs u l || in_ivs u r)
in_ivs-append u [] r = refl
in_ivs-append u (x ∷ l) r = ground (arith, in_ivs-append u l r)

pub EndBy-append : (n : ℕ) (l r : List Iv) → EndBy n l → EndBy n r → EndBy n (l ++ r)
EndBy-append n [] r a b = b
EndBy-append n (x ∷ l) r a b = (a.0, EndBy-append n l r a.1 b)

-- seconds of a day, at most a day apart
abbrev pub IsSpan : ℕ → ℕ → Type 0
IsSpan s e = (s < 86400) × (s < e) × (e ≤ s + 86400)

pub in_ivs-days_ivs :
    (clk : FwClock) (s e : ℕ) (ds : List ℕ) (u : ℕ)
    → IsSpan s e
    → AreDays ds
    → u < fw_week
    → in_ivs u (days_ivs clk s e ds) ≡ open_on s e ds (local_second clk.local_off u)
in_ivs-days_ivs clk s e [] u span days hu = refl
in_ivs-days_ivs clk s e (d ∷ ds) u span days hu =
    in_ivs-append u (day_ivs clk s e d) (days_ivs clk s e ds)
    ∙ ap (λ b. b || in_ivs u (days_ivs clk s e ds))
        (in_ivs-day_ivs clk s e d u span.0 span.1 span.2 days.0 hu)
    ∙ ap (λ b. in_window s e d (local_second clk.local_off u) || b)
        (in_ivs-days_ivs clk s e ds u span days.1 hu)

pub EndBy-days_ivs :
    (clk : FwClock) (s e : ℕ) (ds : List ℕ)
    → IsSpan s e
    → AreDays ds
    → EndBy fw_week (days_ivs clk s e ds)
EndBy-days_ivs clk s e [] span days = tt
EndBy-days_ivs clk s e (d ∷ ds) span days =
    EndBy-append fw_week (day_ivs clk s e d) (days_ivs clk s e ds)
      (EndBy-day_ivs clk s e d span.0 span.1 span.2 days.0) (EndBy-days_ivs clk s e ds span days.1)
