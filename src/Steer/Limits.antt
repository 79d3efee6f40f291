-- ===== src/Steer/Limits.antt =====
-- The bounds of a run, and of the state that it keeps.
use text.Mathlib.Text.{◌==◌ as str_eq}
use mini_router.Prelude.{
  ℕ, zero, suc, ◌+◌, ◌-◌, ◌≡◌, ◌≤◌, refl, Bool, true, false, not, ◌&&◌, ◌||◌, String, Option, none,
  some, List, [], ◌∷◌, ◌++◌, ltb, leb, length, drop, arith, Bool-cases, inl, inr, eq_iff, sym,
  subst,
}
use mini_router.Steer.{
  HapdSta, SteerDev, SteerRec, Steering, SteerState, Outcome, find_sta, find_dev, put_dev, oldest,
  drop_dev, new_dev, counted, room, note_dev, keep_recent, steer_send, steer_why, is_ask,
  steer_stations,
}

length-drop_exact : {A : Type 0} (n : ℕ) (l : List A) → length (drop n l) ≡ length l - n
length-drop_exact zero l = omega arith
length-drop_exact (suc n) [] = omega arith
length-drop_exact (suc n) (x ∷ l) = omega (arith, length-drop_exact n l)

keep_recent_few : (l : List SteerRec) → length (keep_recent l) ≤ 20
keep_recent_few l = ground (arith, length-drop_exact (length l - 20) l)

abbrev has_dev : String → List (String × SteerDev) → Bool
has_dev mac [] = false
has_dev mac ((m, d) ∷ l) = let rest = has_dev mac l in str_eq m mac || rest

length-drop_dev :
    (mac : String) (l : List (String × SteerDev))
    → has_dev mac l ≡ true
    → suc (length (drop_dev mac l)) ≡ length l
unfolding drop_dev
length-drop_dev mac [] h = ground arith
length-drop_dev mac ((m, d) ∷ l) h = ground (arith, length-drop_dev mac l)

-- the oldest is the one it starts with, or one of the list
oldest-has_dev :
    (old : String) (t : ℕ) (l : List (String × SteerDev))
    → str_eq old (oldest old t l) || has_dev (oldest old t l) l ≡ true
unfolding oldest
oldest-has_dev old t [] = ground (arith, eq_iff old old)
oldest-has_dev old t ((m, d) ∷ l) = elim (Bool-cases (ltb d.last t)) [
  | inl e ↦
      let younger : oldest old t ((m, d) ∷ l) ≡ oldest m d.last l = rw (oldest, e) refl in
      subst (λ x. str_eq old x || has_dev x ((m, d) ∷ l) ≡ true) (sym younger)
        (or_right (str_eq old (oldest m d.last l)) _ (oldest-has_dev m d.last l))
  | inr e ↦
      let same : oldest old t ((m, d) ∷ l) ≡ oldest old t l = rw (oldest, e) refl in
      subst (λ x. str_eq old x || has_dev x ((m, d) ∷ l) ≡ true) (sym same)
        (or_between _ (str_eq m (oldest old t l)) _ (oldest-has_dev old t l))
]
  where
    or_right : (a b : Bool) → b ≡ true → a || b ≡ true
    or_right a b h = ground arith

    or_between : (a b c : Bool) → a || c ≡ true → a || (b || c) ≡ true
    or_between a b c h = ground arith

length-room : (l : List (String × SteerDev)) → length l ≤ 64 → length (room l) ≤ 63
length-room [] h = omega arith
length-room ((m, d) ∷ l) h =
    ground (arith, length-drop_dev (oldest m d.last l) ((m, d) ∷ l) (oldest-has_dev m d.last l))

length-put_dev :
    (mac : String) (x : SteerDev) (l : List (String × SteerDev))
    → length (put_dev mac x l) ≤ length l + 1
unfolding put_dev
length-put_dev mac x [] = omega arith
length-put_dev mac x ((m, d) ∷ l) = ground (arith, length-put_dev mac x l)

length-put_dev_there :
    (mac : String) (x d : SteerDev) (l : List (String × SteerDev))
    → find_dev mac l ≡ some d
    → length (put_dev mac x l) ≡ length l
unfolding find_dev put_dev
length-put_dev_there mac x d [] e = ground arith
length-put_dev_there mac x d ((m, b) ∷ l) e = ground (arith, length-put_dev_there mac x d l)

length-note_dev :
    (o : Outcome) (mac : String) (now : ℕ) (f : Option SteerDev) (l : List (String × SteerDev))
    → find_dev mac l ≡ f
    → length l ≤ 64
    → length (note_dev o mac now f l) ≤ 64
length-note_dev o mac now none l e h =
    omega (arith, length-put_dev mac (counted o new_dev now) (room l), length-room l h)
length-note_dev o mac now (some d) l e h =
    omega (arith, length-put_dev_there mac (counted o d now) d l e)

-- the dialog token fits a byte, and the lists are short
abbrev pub IsBounded : SteerState → Type 0
IsBounded st = (st.token ≤ 255) × (length st.recent ≤ 20) × (length st.dev ≤ 64)

steer_send-IsBounded :
    (st : SteerState) (mac to : String) (o : Outcome) (now : ℕ)
    → IsBounded st
    → IsBounded (steer_send st mac to o now)
unfolding steer_send
steer_send-IsBounded st mac to o now b = (
  omega arith,
  keep_recent_few (
      st.recent
      ++ (record { at_time = now; station = mac; target = to; answer = o; is_moved = false } ∷ [])),
  length-note_dev o mac now (find_dev mac st.dev) st.dev refl b.2,
)

-- A run that has sent at most four requests asks so many stations more that they are four at most,
-- and bounded lists stay so: a dialog token of one byte, the last 20 requests, and the counters of
-- 64 stations.
pub steer_stations-IsBounded :
    (conf : Steering) (to : String) (answer : String → Outcome) (now : ℕ) (stations : List HapdSta)
    (st : SteerState) (sent : ℕ)
    → IsBounded st
    → sent ≤ 4
    → IsBounded (steer_stations conf to answer now stations st sent).0.0
      × (length (steer_stations conf to answer now stations st sent).1 + sent ≤ 4)
unfolding steer_stations
steer_stations-IsBounded conf to answer now [] st sent b few = (b, omega arith)
steer_stations-IsBounded conf to answer now (s ∷ stations) st sent b few =
    elim (Bool-cases (is_ask (steer_why s (find_sta s.mac st.sta) conf now) && not (leb 4 sent))) [
      | inl e ↦
          let (bounded, count) =
            steer_stations-IsBounded conf to answer now stations
              (steer_send st s.mac to (answer s.mac) now) (sent + 1)
              (steer_send-IsBounded st s.mac to (answer s.mac) now b) (ground arith) in
          rw (steer_stations, e) (bounded, omega arith)
      | inr e ↦
          rw (steer_stations, e)
            (steer_stations-IsBounded conf to answer now stations st sent b few)
    ]
