-- ===== src/Steer/Pace.antt =====
-- How often a station is asked, over any runs.
use text.Mathlib.Text.{◌==◌ as str_eq}
use mini_router.Prelude.{
  ℕ, ◌+◌, ◌≡◌, ◌≤◌, true, false, String, Option, none, some, List, [], ◌∷◌, if◌then◌else◌,
}
use mini_router.Steer.{
  HapdSta, SteerSta, Steering, SteerState, Outcome, rejected, has_name, asked_last, is_ask,
  find_sta, save, steer_stations,
}
use mini_router.Steer.Entries.{IsDistinct}

-- the entry that a request at that time leaves
abbrev Asked : ℕ → Outcome → Option SteerSta → Type 0
Asked now o none = ⊥
Asked now o (some e) = (e.last ≡ now) × (e.result ≡ o)

module _ (conf : Steering) (to : String) (answer : String → Outcome) (now : ℕ) (mac : String) where
  Ran : Option SteerSta → List String → SteerState → Type 0
  Ran x asked st =
      IsDistinct st.sta
      × (has_name mac asked ≡ true
          → (is_ask (asked_last x now) ≡ true) × Asked now (answer mac) (find_sta mac st.sta))
      × (has_name mac asked ≡ false → find_sta mac st.sta ≡ x)

-- a run: its time, its target, the stations of the BSS and their answers
pub record SteerRun : Type 0 where
  pub time : ℕ
  pub bss : String
  pub stations : List HapdSta
  pub answers : String → Outcome

-- when the runs ask the station, and what it answers
abbrev pub requests_of : String → Steering → SteerState → List SteerRun → List (ℕ × Outcome)
requests_of mac conf st [] = []
requests_of mac conf st (c ∷ runs) =
    let ((st', sent), asked) = steer_stations conf c.bss c.answers c.time c.stations st 0 in
    let rest = requests_of mac conf (save c.time st') runs in
    if has_name mac asked then (c.time, c.answers mac) ∷ rest else rest

-- half an hour after a request, and four hours after a refusal
abbrev pub CanFollow : ℕ × Outcome → ℕ → Type 0
CanFollow r t = (r.0 + 1800 ≤ t) × (r.1 ≡ rejected → r.0 + 14400 ≤ t)

abbrev pub IsPaced : List (ℕ × Outcome) → Type 0
IsPaced [] = Unit
IsPaced (r ∷ []) = Unit
IsPaced (r ∷ q ∷ l) = CanFollow r q.0 × IsPaced (q ∷ l)

-- the clock does not go back
abbrev pub IsOrdered : ℕ → List SteerRun → Type 0
IsOrdered t [] = Unit
IsOrdered t (c ∷ runs) = (t ≤ c.time) × IsOrdered c.time runs

-- the state knows of the last request, or it was more than a day ago
abbrev Remembers : ℕ × Outcome → ℕ → Option SteerSta → Type 0
Remembers r t none = r.0 + 86400 ≤ t
Remembers r t (some e) = (e.last ≡ r.0) × (e.result ≡ r.1)
