-- ===== src/Steer/Entries.antt =====
-- The entries of the stations: one for each, through requests and through the saving.
use text.Mathlib.Text.{◌==◌ as str_eq}
use mini_router.Prelude.{
  ℕ, ◌-◌, ◌≡◌, refl, Bool, false, ◌||◌, String, Option, none, some, List, [], ◌∷◌, if◌then◌else◌,
  ltb, arith, Bool-cases, inl, inr, eq_iff,
}
use mini_router.Steer.{SteerSta, find_sta, put_sta, forget_sta}

abbrev pub Stations : Type 0
Stations = List (String × SteerSta)

abbrev pub has_sta : String → List (String × SteerSta) → Bool
has_sta mac [] = false
has_sta mac ((m, e) ∷ l) = let rest = has_sta mac l in str_eq m mac || rest

-- each station has one entry
abbrev pub IsDistinct : List (String × SteerSta) → Type 0
IsDistinct [] = Unit
IsDistinct ((m, e) ∷ l) = (has_sta m l ≡ false) × IsDistinct l

pub find_sta-put_sta :
    (mac k : String) (x : SteerSta) (l : Stations)
    → find_sta mac (put_sta k x l) ≡ (if str_eq k mac then some x else find_sta mac l)
unfolding find_sta put_sta
find_sta-put_sta mac k x [] = refl
find_sta-put_sta mac k x ((m, e) ∷ l) =
    ground (arith, find_sta-put_sta mac k x l, eq_iff m k, eq_iff k mac, eq_iff m mac)

has_sta-put_sta :
    (mac k : String) (x : SteerSta) (l : Stations)
    → has_sta mac (put_sta k x l) ≡ (str_eq k mac || has_sta mac l)
unfolding put_sta
has_sta-put_sta mac k x [] = refl
has_sta-put_sta mac k x ((m, e) ∷ l) =
    ground (arith, has_sta-put_sta mac k x l, eq_iff m k, eq_iff k mac, eq_iff m mac)

pub put_sta-IsDistinct :
    (k : String) (x : SteerSta) (l : Stations) → IsDistinct l → IsDistinct (put_sta k x l)
unfolding put_sta
put_sta-IsDistinct k x [] d = (refl, tt)
put_sta-IsDistinct k x ((m, e) ∷ l) d = elim (Bool-cases (str_eq m k)) [
  | inl same ↦ rw (put_sta, same) d
  | inr other ↦ rw (put_sta, other) (absent other, put_sta-IsDistinct k x l d.1)
]
  where
    absent : str_eq m k ≡ false → has_sta m (put_sta k x l) ≡ false
    absent other = ground (arith, has_sta-put_sta m k x l, eq_iff m k, eq_iff k m)

find_sta-lacks : (mac : String) (l : Stations) → has_sta mac l ≡ false → find_sta mac l ≡ none
unfolding find_sta
find_sta-lacks mac [] h = refl
find_sta-lacks mac ((m, e) ∷ l) h = ground (arith, find_sta-lacks mac l)

has_sta-forget_sta :
    (mac : String) (now : ℕ) (l : Stations)
    → has_sta mac l ≡ false
    → has_sta mac (forget_sta now l) ≡ false
unfolding forget_sta
has_sta-forget_sta mac now [] h = refl
has_sta-forget_sta mac now ((m, e) ∷ l) h = ground (arith, has_sta-forget_sta mac now l)

pub forget_sta-IsDistinct : (now : ℕ) (l : Stations) → IsDistinct l → IsDistinct (forget_sta now l)
unfolding forget_sta
forget_sta-IsDistinct now [] d = tt
forget_sta-IsDistinct now ((m, e) ∷ l) d = elim (Bool-cases (ltb 86400 (now - e.last))) [
  | inl old ↦ rw (forget_sta, old) (forget_sta-IsDistinct now l d.1)
  | inr new ↦ rw (forget_sta, new) (has_sta-forget_sta m now l d.0, forget_sta-IsDistinct now l d.1)
]

-- what the saved state remembers of a station
abbrev pub remembered : ℕ → Option SteerSta → Option SteerSta
remembered now none = none
remembered now (some e) = if ltb 86400 (now - e.last) then none else some e

pub find_sta-forget_sta :
    (mac : String) (now : ℕ) (l : Stations)
    → IsDistinct l
    → find_sta mac (forget_sta now l) ≡ remembered now (find_sta mac l)
unfolding find_sta forget_sta
find_sta-forget_sta mac now [] d = refl
find_sta-forget_sta mac now ((m, e) ∷ l) d = ground (
  arith,
  eq_iff m mac,
  find_sta-lacks m (forget_sta now l) (has_sta-forget_sta m now l d.0),
  find_sta-forget_sta mac now l d.1,
)
