-- ===== src/FwTime/Schedule.antt =====
-- The matches against the schedule as it is written, in local time.
use mini_router.Prelude.{
  ℕ, ◌+◌, ◌-◌, ◌*◌, ◌%◌, ◌/◌, ◌≡◌, ◌≤◌, ◌<◌, refl, Bool, true, false, ◌||◌, String, Option, none,
  some, List, [], ◌∷◌, if◌then◌else◌, ltb, leb, arith, Bool-cases, inl, inr, ◌∙◌, sym, ap,
}
use mini_router.Prelude.Bytes.{Bytes}
use mini_router.Cron.{digits_from}
use mini_router.FwTime.{
  fw_week, FwClock, FwTime, fw_day_num, add_day, past_midnight, span_ivs, byte_at, number_at,
  is_window_text, fw_parse_window, known_days, or_every_day, fw_span, Iv, time_ivs, all_ivs,
  sort_ivs, merge_ivs, mod_minus,
}
use mini_router.FwTime.Matches.{is_whole_week, kernel_day, Piece, all_pieces, fw_time_matches}
use mini_router.FwTime.Merge.{in_ivs, in_ivs-merge_ivs, EndBy, EndBy-merge_ivs}
use mini_router.FwTime.Windows.{
  local_second, open_on, AreDays, IsSpan, in_ivs-append, EndBy-append, in_ivs-days_ivs,
  EndBy-days_ivs, mod_minus-east,
}
use mini_router.FwTime.Pieces.{pieces_hold, pieces_hold-all_pieces}
use mini_router.FwTime.Groups.{holds_piece, holds_pieces, any_holds, any_holds-pieces}

-- the window of the entry on one of its days
abbrev pub span_open : Option (ℕ × ℕ) → List ℕ → ℕ → Bool
span_open none ds l = false
span_open (some w) ds l = open_on w.0 w.1 ds l

abbrev pub time_open : FwTime → ℕ → Bool
time_open t l = span_open (fw_span t.time) (or_every_day (known_days t.days)) l

abbrev times_open : List FwTime → ℕ → Bool
times_open [] l = false
times_open (t ∷ sch) l = time_open t l || times_open sch l

-- an empty schedule is always open
abbrev pub schedule_open : List FwTime → ℕ → Bool
schedule_open [] l = true
schedule_open (t ∷ sch) l = times_open (t ∷ sch) l

fw_day_num_le : (d : String) (n : ℕ) → fw_day_num d ≡ some n → n ≤ 6
unfolding fw_day_num
fw_day_num_le d n e = ground arith

known_days-AreDays : (ds : List String) → AreDays (known_days ds)
known_days-AreDays [] = tt
known_days-AreDays (d ∷ ds) = added (fw_day_num d) (fw_day_num_le d) (known_days-AreDays ds)
  where
    added :
        (o : Option ℕ)
        → ((n : ℕ) → o ≡ some n → n ≤ 6)
        → AreDays (known_days ds)
        → AreDays (add_day o (known_days ds))
    added none le days = days
    added (some n) le days = (le n refl, days)

or_every_day-AreDays : (ds : List ℕ) → AreDays ds → AreDays (or_every_day ds)
or_every_day-AreDays [] a = omega arith
or_every_day-AreDays (d ∷ ds) a = a

number_two : (a b : ℕ) → digits_from 0 (a ∷ b ∷ []) ≡ (a - b'0') * 10 + (b - b'0')
unfolding digits_from
number_two a b = omega arith

window_start :
    (s : Bytes) → is_window_text s ≡ true → number_at 0 s * 3600 + number_at 3 s * 60 < 86400
unfolding is_window_text
window_start s e =
    let h = number_two (byte_at 0 s) (byte_at 1 s) in
    let m = number_two (byte_at 3 s) (byte_at 4 s) in ground arith

abbrev some_pair : ℕ → ℕ → Option (ℕ × ℕ)
some_pair a b = some (a, b)

abbrev pair_or_none : Option (ℕ × ℕ) → ℕ × ℕ
pair_or_none none = (0, 0)
pair_or_none (some w) = w

none_some : (a b : ℕ) → none ≡ some_pair a b → ⊥
none_some a b e = cc

parsed_bounds :
    (x y a b : ℕ)
    → x < 86400
    → (if ltb 86400 y then none else some_pair x y) ≡ some_pair a b
    → (a < 86400) × (b ≤ 86400)
parsed_bounds x y a b h e = elim (Bool-cases (ltb 86400 y)) [
  | inl over ↦ absurd (none_some a b (rw over at e))
  | inr fits ↦
      let e' : some_pair x y ≡ some_pair a b = rw fits at e in
      let ex : x ≡ a = ap (λ o. (pair_or_none o).0) e' in
      let ey : y ≡ b = ap (λ o. (pair_or_none o).1) e' in (omega arith, ground arith)
]

fw_parse_window-bounds :
    (s : Bytes) (a b : ℕ) → fw_parse_window s ≡ some (a, b) → (a < 86400) × (b ≤ 86400)
unfolding fw_parse_window
fw_parse_window-bounds s a b e = elim (Bool-cases (is_window_text s)) [
  | inl t ↦ parsed_bounds _ _ a b (window_start s t) (rw t at e)
  | inr t ↦ absurd (none_some a b (rw t at e))
]

past_midnight-IsSpan :
    (o : Option (ℕ × ℕ)) (w : ℕ × ℕ)
    → ((a b : ℕ) → o ≡ some (a, b) → (a < 86400) × (b ≤ 86400))
    → past_midnight o ≡ some w
    → IsSpan w.0 w.1
past_midnight-IsSpan none w h e = ground arith
past_midnight-IsSpan (some (a, b)) w h e =
    let (ha, hb) = h a b refl in
    let start : a ≡ w.0 = ap (λ o. (pair_or_none o).0) e in
    let end : (if leb b a then b + 86400 else b) ≡ w.1 = ap (λ o. (pair_or_none o).1) e in
    span w.0 w.1 start end ha hb
  where
    span :
        (x y : ℕ)
        → a ≡ x
        → (if leb b a then b + 86400 else b) ≡ y
        → a < 86400
        → b ≤ 86400
        → IsSpan x y
    span x y start end ha hb = ground arith

fw_span-IsSpan : (s : Bytes) (w : ℕ × ℕ) → fw_span s ≡ some w → IsSpan w.0 w.1
unfolding fw_span
fw_span-IsSpan [] w e =
    let start : 0 ≡ w.0 = ap (λ o. (pair_or_none o).0) e in
    let end : 86400 ≡ w.1 = ap (λ o. (pair_or_none o).1) e in
    (omega arith, omega arith, omega arith)
fw_span-IsSpan (c ∷ s) w e =
    past_midnight-IsSpan (fw_parse_window (c ∷ s)) w (fw_parse_window-bounds (c ∷ s)) e

-- one entry, in UTC and in local time
time_ivs-open :
    (clk : FwClock) (t : FwTime) (u : ℕ)
    → u < fw_week
    → (in_ivs u (time_ivs clk t) ≡ time_open t (local_second clk.local_off u))
      × EndBy fw_week (time_ivs clk t)
unfolding time_ivs
time_ivs-open clk t u hu =
    spans (or_every_day (known_days t.days)) (fw_span t.time) (fw_span-IsSpan t.time)
      (or_every_day-AreDays (known_days t.days) (known_days-AreDays t.days))
  where
    spans :
        (ds : List ℕ) (o : Option (ℕ × ℕ))
        → ((w : ℕ × ℕ) → o ≡ some w → IsSpan w.0 w.1)
        → AreDays ds
        → (in_ivs u (span_ivs clk o ds) ≡ span_open o ds (local_second clk.local_off u))
          × EndBy fw_week (span_ivs clk o ds)
    spans ds none span days = (refl, tt)
    spans ds (some (s, e)) span days = (
      in_ivs-days_ivs clk s e ds u (span (s, e) refl) days hu,
      EndBy-days_ivs clk s e ds (span (s, e) refl) days,
    )

all_ivs-open :
    (clk : FwClock) (sch : List FwTime) (u : ℕ)
    → u < fw_week
    → (in_ivs u (all_ivs clk sch) ≡ times_open sch (local_second clk.local_off u))
      × EndBy fw_week (all_ivs clk sch)
all_ivs-open clk [] u hu = (refl, tt)
all_ivs-open clk (t ∷ sch) u hu =
    let (same, ends) = time_ivs-open clk t u hu in
    let (rest, rest_ends) = all_ivs-open clk sch u hu in
    (
      in_ivs-append u (time_ivs clk t) (all_ivs clk sch)
          ∙ ap (λ b. b || in_ivs u (all_ivs clk sch)) same
          ∙ ap (λ b. time_open t (local_second clk.local_off u) || b) rest,
      EndBy-append fw_week (time_ivs clk t) (all_ivs clk sch) ends rest_ends,
    )

same_pieces :
    (clk : FwClock) (u : ℕ) (l : List Piece)
    → holds_pieces (kernel_day clk u) (u % 86400) l ≡ pieces_hold clk u l
same_pieces clk u [] = refl
same_pieces clk u (p ∷ l) =
    ap (λ b. holds_piece (kernel_day clk u) (u % 86400) p || b) (same_pieces clk u l)

whole_week-in_ivs : (u : ℕ) (l : List Iv) → u < fw_week → is_whole_week l ≡ true → in_ivs u l ≡ true
whole_week-in_ivs u [] hu e = ground arith
whole_week-in_ivs u ((a, b) ∷ []) hu e = ground arith
whole_week-in_ivs u (x ∷ y ∷ l) hu e = ground arith

kernel_day_le : (clk : FwClock) (u : ℕ) → u < fw_week → kernel_day clk u ≤ 6
unfolding kernel_day
kernel_day_le clk u hu =
    day_of (mod_minus u clk.kernel_west fw_week)
      (omega (arith, mod_minus-east u clk.kernel_west hu))
  where
    day_of : (v : ℕ) → v < fw_week → v / 86400 ≤ 6
    day_of v h = omega arith

-- At every second of the UTC week, one of the matches holds for the kernel, which has the second of
-- the UTC day and its own weekday, exactly when the schedule is open at that time in local time.
pub fw_time_matches-schedule_open :
    (sch : List FwTime) (clk : FwClock) (u : ℕ)
    → u < fw_week
    → any_holds (kernel_day clk u) (u % 86400) (fw_time_matches sch clk)
      ≡ schedule_open sch (local_second clk.local_off u)
unfolding fw_time_matches
fw_time_matches-schedule_open [] clk u hu = refl
fw_time_matches-schedule_open (t ∷ sch) clk u hu =
    let merged = merge_ivs (sort_ivs (all_ivs clk (t ∷ sch))) in
    let (same, ends) = all_ivs-open clk (t ∷ sch) u hu in
    let union = in_ivs-merge_ivs u (all_ivs clk (t ∷ sch)) ∙ same in
    elim (Bool-cases (is_whole_week merged)) [
      | inl e ↦ rw e (sym (whole_week-in_ivs u merged hu e) ∙ union)
      | inr e ↦ rw e (
          any_holds-pieces (kernel_day clk u) (u % 86400) (all_pieces clk merged)
            (kernel_day_le clk u hu) (omega arith)
          ∙ same_pieces clk u (all_pieces clk merged)
          ∙ pieces_hold-all_pieces clk u merged
              (EndBy-merge_ivs fw_week (all_ivs clk (t ∷ sch)) ends) hu
          ∙ union)
    ]
