-- ===== src/FwTime.antt =====
-- Weekly time windows of the firewall (mr/mod_fw_time.go fwTimeMatches, its first half; fwParseWindow
-- and fwDayNum of mr/mod_fw.go): windows in local time become intervals of the UTC week. An integer
-- that is subtracted carries its sign; `mod_minus x o n` is Go's `((x - o) % n + n) % n`, whose
-- remainder has the sign of the dividend. Matches are data, not text.
pub mod Matches
pub mod Windows
pub mod Merge
pub mod Pieces
pub mod Groups
pub mod Schedule
pub mod Tests
use text.Mathlib.Text.{◌==◌ as str_eq}
use mini_router.Prelude.{
  ℕ, zero, suc, ◌+◌, ◌-◌, ◌*◌, ◌/◌, ◌%◌, max, min, Bool, true, false, not, ◌&&◌, ◌||◌, String,
  Option, none, some, List, [], ◌∷◌, ◌++◌, if◌then◌else◌, ltb, leb, ◌==◌, length,
}
use mini_router.Prelude.Bytes.{Bytes}
use mini_router.Cron.{is_digit, digits_from}

abbrev pub day_seconds : ℕ
day_seconds = 86400

abbrev pub fw_week : ℕ
fw_week = 604800

-- an integer: what is added to a time east of it, or taken off
pub data Offset : Type 0 where
  plus minus : ℕ → Offset

abbrev pub mod_minus : ℕ → Offset → ℕ → ℕ
mod_minus x (plus o) n = if leb o x then ((x - o) % n + n) % n else (n - (o - x) % n) % n
mod_minus x (minus o) n = ((x + o) % n + n) % n

-- fwClock, the west of the kernel already in seconds
pub record FwClock : Type 0 where
  pub local_off : Offset
  pub kernel_west : Offset

pub record FwTime : Type 0 where
  pub days : List String
  pub time : Bytes

-- fwDayNum
unfoldable pub fw_day_num : String → Option ℕ
fw_day_num d =
    if str_eq d "sun"
    then some 0
    else if str_eq d "mon"
    then some 1
    else if str_eq d "tue"
    then some 2
    else if str_eq d "wed"
    then some 3
    else if str_eq d "thu"
    then some 4
    else if str_eq d "fri"
    then some 5
    else if str_eq d "sat"
    then some 6
    else none

abbrev pub byte_at : ℕ → Bytes → ℕ
byte_at k [] = 0
byte_at zero (c ∷ s) = c
byte_at (suc k) (c ∷ s) = byte_at k s

abbrev pub number_at : ℕ → Bytes → ℕ
number_at k s = digits_from 0 (byte_at k s ∷ byte_at (k + 1) s ∷ [])

-- [01][0-9]|2[0-last] at this place
abbrev pub hour_at : ℕ → ℕ → Bytes → Bool
hour_at last k s =
    ((byte_at k s == b'0' || byte_at k s == b'1') && is_digit (byte_at (k + 1) s))
    || (byte_at k s == b'2' && leb b'0' (byte_at (k + 1) s) && leb (byte_at (k + 1) s) last)

abbrev pub minute_at : ℕ → Bytes → Bool
minute_at k s = leb b'0' (byte_at k s) && leb (byte_at k s) b'5' && is_digit (byte_at (k + 1) s)

-- reFwTime
unfoldable pub is_window_text : Bytes → Bool
is_window_text s =
    (length s == 11)
    && hour_at b'3' 0 s
    && (byte_at 2 s == b':')
    && minute_at 3 s
    && (byte_at 5 s == b'-')
    && hour_at b'4' 6 s
    && (byte_at 8 s == b':')
    && minute_at 9 s

-- fwParseWindow
unfoldable pub fw_parse_window : Bytes → Option (ℕ × ℕ)
fw_parse_window s =
    let start = number_at 0 s * 3600 + number_at 3 s * 60 in
    let end = number_at 6 s * 3600 + number_at 9 s * 60 in
    if not (is_window_text s) then none else if ltb 86400 end then none else some (start, end)

abbrev pub add_day : Option ℕ → List ℕ → List ℕ
add_day none ds = ds
add_day (some n) ds = n ∷ ds

abbrev pub known_days : List String → List ℕ
known_days [] = []
known_days (d ∷ ds) = add_day (fw_day_num d) (known_days ds)

abbrev pub or_every_day : List ℕ → List ℕ
or_every_day [] = 0 ∷ 1 ∷ 2 ∷ 3 ∷ 4 ∷ 5 ∷ 6 ∷ []
or_every_day (d ∷ ds) = d ∷ ds

abbrev pub past_midnight : Option (ℕ × ℕ) → Option (ℕ × ℕ)
past_midnight none = none
past_midnight (some (s, e)) = some (s, if leb e s then e + 86400 else e)

-- the window in seconds of its day; it may end on the next one
unfoldable pub fw_span : Bytes → Option (ℕ × ℕ)
fw_span [] = some (0, 86400)
fw_span (c ∷ s) = past_midnight (fw_parse_window (c ∷ s))

abbrev pub Iv : Type 0
Iv = ℕ × ℕ

-- one day's window, in UTC seconds since Sunday
unfoldable pub day_ivs : FwClock → ℕ → ℕ → ℕ → List Iv
day_ivs clk s e d =
    let a = mod_minus (d * 86400 + s) clk.local_off fw_week in
    let b = a + e - s in if ltb fw_week b then (a, fw_week) ∷ (0, b - fw_week) ∷ [] else (a, b) ∷ []

abbrev pub days_ivs : FwClock → ℕ → ℕ → List ℕ → List Iv
days_ivs clk s e [] = []
days_ivs clk s e (d ∷ ds) = day_ivs clk s e d ++ days_ivs clk s e ds

abbrev pub span_ivs : FwClock → Option (ℕ × ℕ) → List ℕ → List Iv
span_ivs clk none ds = []
span_ivs clk (some (s, e)) ds = days_ivs clk s e ds

unfoldable pub time_ivs : FwClock → FwTime → List Iv
time_ivs clk t = span_ivs clk (fw_span t.time) (or_every_day (known_days t.days))

abbrev pub all_ivs : FwClock → List FwTime → List Iv
all_ivs clk [] = []
all_ivs clk (t ∷ sch) = time_ivs clk t ++ all_ivs clk sch

-- sort.Slice by the start
unfoldable pub insert_iv : Iv → List Iv → List Iv
insert_iv x [] = x ∷ []
insert_iv x (y ∷ l) = let rest = insert_iv x l in if leb x.0 y.0 then x ∷ y ∷ l else y ∷ rest

abbrev pub sort_ivs : List Iv → List Iv
sort_ivs [] = []
sort_ivs (x ∷ l) = insert_iv x (sort_ivs l)

-- the union; `last` is the last one merged
unfoldable pub merge_from : Iv → List Iv → List Iv
merge_from last [] = last ∷ []
merge_from last (x ∷ l) =
    if leb x.0 last.1 then merge_from (last.0, max last.1 x.1) l else last ∷ merge_from x l

abbrev pub merge_ivs : List Iv → List Iv
merge_ivs [] = []
merge_ivs (x ∷ l) = merge_from x l
