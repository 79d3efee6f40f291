-- ===== src/Cron.antt =====
-- Scheduled tasks (mr/mod_sys_cron.go): the check of a cron expression, the minutes at which busybox
-- crond runs it, and the schedule that decides whether a window is off. Expressions are ASCII text;
-- errors carry their case, not their wording.
pub mod Single
pub mod Hourly
pub mod Normal
pub mod Safe
pub mod Newest
pub mod Concerns
pub mod Latest
pub mod Crontab
pub mod Tests
use text.Mathlib.Text.{◌==◌ as str_eq}
use mini_router.Prelude.{
  ℕ, zero, suc, ◌+◌, ◌-◌, ◌*◌, ◌%◌, max, Bool, true, false, not, ◌&&◌, ◌||◌, String, Option, none,
  some, List, [], ◌∷◌, if◌then◌else◌, ltb, leb, ◌==◌, length,
}
use mini_router.Prelude.Bytes.{Bytes, has_byte, all_bytes}
use mini_router.Strings.{split, cut, fields, join, nth}

abbrev pub is_digit : ℕ → Bool
is_digit c = leb b'0' c && leb c b'9'

-- the number of a text of digits
unfoldable pub digits_from : ℕ → Bytes → ℕ
digits_from n [] = n
digits_from n (c ∷ s) = digits_from (n * 10 + (c - b'0')) s

-- strconv.Atoi: the sign and the size; a number past 64 bits keeps its size here
unfoldable pub go_atoi : Bytes → Option (Bool × ℕ)
go_atoi [] = none
go_atoi (c ∷ s) =
    let signed = length s == 0 || not (all_bytes is_digit s) in
    if c == b'-'
    then (if signed then none else some (true, digits_from 0 s))
    else if c == b'+'
    then (if signed then none else some (false, digits_from 0 s))
    else if all_bytes is_digit (c ∷ s)
    then some (false, digits_from 0 (c ∷ s))
    else none

pub data CronField : Type 0 where
  minute hour day month weekday : CronField

-- cronFields
unfoldable pub field_min : CronField → ℕ
field_min minute = 0
field_min hour = 0
field_min day = 1
field_min month = 1
field_min weekday = 0

unfoldable pub field_max : CronField → ℕ
field_max minute = 59
field_max hour = 23
field_max day = 31
field_max month = 12
field_max weekday = 6

pub data CronError : Type 0 where
  too_many_items step_needs_range minute_single hour_single : CronError
  bad_number bad_step backwards : Bytes → CronError
  out_of_range want_fields : ℕ → CronError
  in_field : CronField → CronError → CronError

pub data Checked {ℓ} (A : Type ℓ) : Type ℓ where
  ok : A → Checked A
  err : CronError → Checked A

infixl 5 ◌>>=◌
abbrev pub ◌>>=◌ {ℓ κ} : {A : Type ℓ} {B : Type κ} → Checked A → (A → Checked B) → Checked B
ok a >>= f = f a
err e >>= f = err e

-- a check without a result
abbrev pub Nothing : Type 0
Nothing = Unit

-- num of parseCronField
unfoldable pub cron_number : Bytes → ℕ → ℕ → Checked ℕ
cron_number x lo hi =
    let n = digits_from 0 x in
    if length x == 0 || ltb 2 (length x) || not (all_bytes is_digit x)
    then err (bad_number x)
    else if ltb n lo || ltb hi n
    then err (out_of_range n)
    else ok n

abbrev pub is_step_number : Option (Bool × ℕ) → ℕ → ℕ → Bool
is_step_number none lo hi = false
is_step_number (some (true, n)) lo hi = false
is_step_number (some (false, n)) lo hi = not (ltb n 1) && not (ltb (hi - lo + 1) n)

unfoldable pub is_step : Bytes → ℕ → ℕ → Bool
is_step step lo hi = is_step_number (go_atoi step) lo hi && not (ltb 2 (length step))

abbrev pub is_star : Bytes → Bool
is_star [] = false
is_star (c ∷ []) = c == b'*'
is_star (c ∷ d ∷ s) = false

unfoldable pub cron_range : Bytes → ℕ → ℕ → Checked Nothing
cron_range rng lo hi =
    let (a, (b, found)) = cut b'-' rng in
    cron_number a lo hi >>= λ x.
    cron_number b lo hi >>= λ y. if ltb y x then err (backwards rng) else ok tt

-- one item of the list
unfoldable pub cron_item : Bytes → ℕ → ℕ → Checked Nothing
cron_item it lo hi =
    let (rng, (step, has_step)) = cut b'/' it in
    if has_step && not (is_step step lo hi)
    then err (bad_step step)
    else if is_star rng
    then ok tt
    else if has_byte b'-' rng
    then cron_range rng lo hi
    else cron_number rng lo hi >>= λ n. if has_step then err step_needs_range else ok tt

unfoldable pub cron_items : List Bytes → ℕ → ℕ → Checked Nothing
cron_items [] lo hi = ok tt
cron_items (it ∷ items) lo hi = cron_item it lo hi >>= λ u. cron_items items lo hi

-- parseCronField; whether the field is one fixed number
unfoldable pub parse_cron_field : Bytes → ℕ → ℕ → Checked Bool
parse_cron_field s lo hi =
    let items = split b',' s in
    if ltb 16 (length items)
    then err too_many_items
    else cron_items items lo hi >>= λ u.
        ok (length items == 1 && not (has_byte b'*' s || has_byte b'-' s || has_byte b'/' s))

abbrev pub cron_fields : List CronField
cron_fields = minute ∷ hour ∷ day ∷ month ∷ weekday ∷ []

abbrev pub in_field_error {ℓ} : {A : Type ℓ} → CronField → Checked A → Checked A
in_field_error i (ok a) = ok a
in_field_error i (err e) = err (in_field i e)

-- the loop of checkCron
unfoldable pub check_fields : List CronField → List Bytes → Checked (List Bool)
check_fields [] f = ok []
check_fields (i ∷ is) [] = ok []
check_fields (i ∷ is) (x ∷ f) =
    in_field_error i (parse_cron_field x (field_min i) (field_max i)) >>= λ s.
    check_fields is f >>= λ single. ok (s ∷ single)

abbrev pub is_single : ℕ → List Bool → Bool
is_single k [] = false
is_single zero (s ∷ single) = s
is_single (suc k) (s ∷ single) = is_single k single

unfoldable pub check_cron : Bytes → String → Checked Bytes
check_cron spec action =
    let f = fields spec in
    if not (length f == 5)
    then err (want_fields (length f))
    else check_fields cron_fields f >>= λ single.
        if not (is_single 0 single)
        then err minute_single
        else if str_eq action "reboot" && not (is_single 1 single)
        then err hour_single
        else ok (join f)

-- the wall clock, to the minute
pub record Wall : Type 0 where
  pub minute_of : ℕ
  pub hour_of : ℕ
  pub day_of : ℕ
  pub month_of : ℕ
  pub weekday_of : ℕ

-- max(atoi(s), 1)
abbrev pub step_size : Option (Bool × ℕ) → ℕ
step_size none = 1
step_size (some (true, n)) = 1
step_size (some (false, n)) = max n 1

-- atoi(s) <= v, v <= atoi(s) and v - atoi(s), where atoi is 0 for a text that is no number
abbrev pub from_number : Option (Bool × ℕ) → ℕ → Bool
from_number none v = true
from_number (some (true, n)) v = true
from_number (some (false, n)) v = leb n v

abbrev pub to_number : Option (Bool × ℕ) → ℕ → Bool
to_number none v = v == 0
to_number (some (true, n)) v = v == 0 && n == 0
to_number (some (false, n)) v = leb v n

abbrev pub distance : Option (Bool × ℕ) → ℕ → ℕ
distance none v = v
distance (some (true, n)) v = v + n
distance (some (false, n)) v = v - n

-- whether the item holds the value, in a field with these bounds
unfoldable pub item_holds : ℕ → ℕ → Bytes → ℕ → Bool
item_holds lo hi it v =
    let (rng, (step, has_step)) = cut b'/' it in
    let st = step_size (go_atoi step) in
    let (a, (b, is_range)) = cut b'-' rng in
    let first = go_atoi a in
    let last = if is_range then go_atoi b else first in
    if is_star rng
    then leb lo v && leb v hi && ((v - lo) % st == 0)
    else from_number first v && to_number last v && (distance first v % st == 0)

abbrev pub some_holds : ℕ → ℕ → List Bytes → ℕ → Bool
some_holds lo hi [] v = false
some_holds lo hi (it ∷ items) v = item_holds lo hi it v || some_holds lo hi items v

-- in of cronMatch
unfoldable pub field_holds : CronField → Bytes → ℕ → Bool
field_holds i s v = some_holds (field_min i) (field_max i) (split b',' s) v

unfoldable pub cron_match : Bytes → Wall → Bool
cron_match spec t =
    let f = fields spec in
    let dom = field_holds day (nth f 2) t.day_of in
    let dow = field_holds weekday (nth f 4) t.weekday_of in
    if not (length f == 5)
    then false
    else if not (field_holds minute (nth f 0) t.minute_of)
        || not (field_holds hour (nth f 1) t.hour_of)
        || not (field_holds month (nth f 3) t.month_of)
    then false
    else if is_star (nth f 2)
    then dow
    else if is_star (nth f 4)
    then dom
    else dom || dow

pub record Schedule : Type 0 where
  pub name : String
  pub enabled : Bool
  pub cron : Bytes
  pub action : String
  pub target : String

abbrev pub is_checked : Checked Bytes → Bool
is_checked (ok s) = true
is_checked (err e) = false

-- the schedules of the window, which apply to the target
unfoldable pub windows : String → String → String → List Schedule → List Schedule
windows off on_act target [] = []
windows off on_act target (s ∷ l) =
    let rest = windows off on_act target l in
    if s.enabled
      && (str_eq s.action off || str_eq s.action on_act)
      && (str_eq s.target "" || str_eq s.target target)
      && is_checked (check_cron s.cron s.action)
    then s ∷ rest
    else rest

-- the action of the last schedule of the list that fires
unfoldable pub fired : List Schedule → Wall → String → String
fired [] t res = res
fired (s ∷ ss) t res = fired ss t (if cron_match s.cron t then s.action else res)

-- the loop over the minutes back from `m`; `ago m` is the wall clock m minutes before
unfoldable pub newest_off : String → List Schedule → (ℕ → Wall) → ℕ → ℕ → Bool
newest_off off ss ago zero m = false
newest_off off ss ago (suc k) m =
    let res = fired ss (ago m) "" in
    let rest = newest_off off ss ago k (m + 1) in
    if not (str_eq res "") then str_eq res off else rest

abbrev pub window_minutes : ℕ
window_minutes = 8 * 24 * 60

-- schedOff
unfoldable pub sched_off : List Schedule → String → String → String → (ℕ → Wall) → Bool
sched_off schedules off on_act target ago =
    let ss = windows off on_act target schedules in
    if length ss == 0 then false else newest_off off ss ago window_minutes 0
