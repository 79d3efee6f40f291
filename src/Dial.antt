-- ===== src/Dial.antt =====
-- The dial order of the PPPoE WANs (mr/mod_net_dial.go): who waits for whom, which WANs dialled out of
-- order, and the restore that redials them. Times are Unix seconds; the leases and the records of delegated prefixes, which hooks write, are an argument.
pub mod Order
pub mod Waiting
pub mod Clock
pub mod Gap
pub mod Names
pub mod Errors
pub mod Valid
pub mod Tests
use text.Mathlib.Text.{◌==◌ as str_eq}
use mini_router.Prelude.{
  ℕ, zero, suc, ◌+◌, ◌-◌, ◌*◌, max, Bool, true, false, not, ◌&&◌, ◌||◌, String, Option, none, some,
  List, [], ◌∷◌, ◌++◌, if◌then◌else◌, ltb, leb, ◌==◌, length,
}
use mini_router.Prelude.Bytes.{Bytes, codes}
use mini_router.Strings.{same_bytes}
use mini_router.Cron.{is_digit, digits_from}

abbrev pub dial_restore_gap : ℕ
dial_restore_gap = 600

-- dialRestoreTime
unfoldable pub dial_restore_time : Bytes → (ℕ × ℕ) × Bool
dial_restore_time [] = ((0, 0), false)
dial_restore_time (a ∷ []) = ((0, 0), false)
dial_restore_time (a ∷ b ∷ []) = ((0, 0), false)
dial_restore_time (a ∷ b ∷ c ∷ []) = ((0, 0), false)
dial_restore_time (a ∷ b ∷ c ∷ d ∷ []) = ((0, 0), false)
dial_restore_time (a ∷ b ∷ c ∷ d ∷ e ∷ []) =
    let hour = digits_from 0 (a ∷ b ∷ []) in
    let minute = digits_from 0 (d ∷ e ∷ []) in
    if not (c == b':')
    then ((0, 0), false)
    else if not (is_digit a && is_digit b && is_digit d && is_digit e)
    then ((0, 0), false)
    else ((hour, minute), ltb hour 24 && ltb minute 60)
dial_restore_time (a ∷ b ∷ c ∷ d ∷ e ∷ f ∷ s) = ((0, 0), false)

-- an int; `negsuc n` is -n-1
pub data ℤ : Type 0 where
  pos negsuc : ℕ → ℤ

pub record MultiWan : Type 0 where
  pub dial_order : List String
  pub dial_wait : ℤ
  pub dial_restore : Bytes

abbrev pub restore_is_off : Bytes → Bool
restore_is_off s = same_bytes s (codes "") || same_bytes s (codes "off")

abbrev pub is_nil {ℓ} : {A : Type ℓ} → List A → Bool
is_nil [] = true
is_nil (x ∷ l) = false

unfoldable pub dial_restore_on : MultiWan → Bool
dial_restore_on m = not (is_nil m.dial_order) && not (restore_is_off m.dial_restore)

abbrev pub has_name : String → List String → Bool
has_name n [] = false
has_name n (m ∷ l) = let rest = has_name n l in str_eq m n || rest

-- what stands before the first `name`, if it is there
unfoldable pub before_name : String → List String → Option (List String)
before_name name [] = none
before_name name (n ∷ l) =
    let rest = before_name name l in
    if str_eq n name then some [] else elim rest [ none ↦ none | some r ↦ some (n ∷ r) ]

-- dialEarlier
unfoldable pub dial_earlier : MultiWan → String → List String
dial_earlier m name = elim (before_name name m.dial_order) [ none ↦ [] | some l ↦ l ]

-- a WAN of the configuration, its lease, and when its prefix was delegated
pub record Wan : Type 0 where
  pub is_pppoe : Bool
  pub ipv6 : Bool
  pub ipv6_pd : Bool

pub record Links : Type 0 where
  -- WANByName
  pub wan_by_name : String → Option Wan
  -- readLease: since when the link is up
  pub lease : String → Option ℕ
  -- the time of the pd6File that is not empty
  pub delegated : String → Option ℕ
  -- dialStartedAt
  pub started_at : String → ℕ

abbrev pub wants_prefix : Option Wan → Bool
wants_prefix none = false
wants_prefix (some w) = w.ipv6 && w.ipv6_pd

module _ (o : Links) where
  -- dialReady
  unfoldable pub dial_ready : String → ℕ → Bool
  dial_ready name since = elim (o.lease name) [
    | none ↦ false
    | some t ↦
        if ltb t since
        then false
        else if not (wants_prefix (o.wan_by_name name))
        then true
        else elim (o.delegated name) [ none ↦ false | some d ↦ leb t d ]
  ]

  -- dialLast
  unfoldable pub dial_last : String → Option ℕ
  dial_last name = elim (o.lease name) [
    | none ↦ none
    | some t ↦
        if wants_prefix (o.wan_by_name name)
        then elim (o.delegated name) [ none ↦ some t | some d ↦ some (max t d) ]
        else some t
  ]

  -- a look of dialWaitUp at the WANs
  abbrev pub all_ready : List String → ℕ → Bool
  all_ready [] since = true
  all_ready (n ∷ names) since = dial_ready n (max since (o.started_at n)) && all_ready names since

  -- the loop of dialLate
  unfoldable pub late_from : ℕ → List String → List String
  late_from newest [] = []
  late_from newest (n ∷ names) = elim (dial_last n) [
    | none ↦ late_from newest names
    | some t ↦
        if ltb t newest then n ∷ late_from (max newest t) names else late_from (max newest t) names
  ]

  unfoldable pub dial_late : MultiWan → List String
  dial_late m = late_from 0 m.dial_order

-- dialWaitUp: `clock k` is the time and `links k` are the links at its k-th look; fuel is the number
-- of looks
unfoldable pub wait_up : (ℕ → ℕ) → (ℕ → Links) → List String → ℕ → ℕ → ℕ → ℕ → Option Bool
wait_up clock links names since deadline zero k = none
wait_up clock links names since deadline (suc fuel) k =
    let again = wait_up clock links names since deadline fuel (k + 1) in
    if all_ready (links k) names since
    then some true
    else if not (ltb (clock k) deadline)
    then some false
    else again

-- the time plus MultiWAN.dialWait
abbrev pub dial_deadline : ℤ → ℕ → ℕ
dial_deadline (pos n) time = time + (if n == 0 then 30 else n)
dial_deadline (negsuc n) time = time - (n + 1)

-- the unix time of the last redial of each WAN, 0 for none
abbrev pub Restores : Type 0
Restores = List (String × ℕ)

unfoldable pub restored_at : String → Restores → ℕ
restored_at n [] = 0
restored_at n ((m, t) ∷ st) = let rest = restored_at n st in if str_eq m n then t else rest

-- dialDue, which records what is due
unfoldable pub dial_due : List String → Restores → ℕ → List String × Restores
dial_due [] st time = ([], st)
dial_due (n ∷ late) st time =
    let is_due = leb dial_restore_gap (time - restored_at n st) in
    let (due, rest) = dial_due late (if is_due then (n, time) ∷ st else st) time in
    (if is_due then n ∷ due else due, rest)

-- the loop of a forced run
abbrev pub record_all : List String → ℕ → Restores → Restores
record_all [] time st = st
record_all (n ∷ due) time st = record_all due time ((n, time) ∷ st)

pub data Reason : Type 0 where
  disabled already_running order_ok rate_limited redialled failed : Reason

-- a redial, as its event tells it
pub record Redial : Type 0 where
  pub name : String
  pub start : ℕ
  pub good : Bool

pub record RestoreResult : Type 0 where
  pub redials : List String
  pub failures : List String
  pub reason : Reason
  pub events : List Redial

-- what the redials meet: dialRestart without an error and the seconds that it takes, and the seconds
-- that dialWaitUp takes for a WAN, since a time and up to a deadline
pub record Redialling : Type 0 where
  pub restart : String → Bool
  pub restart_takes : String → ℕ
  pub wait_takes : String → ℕ → ℕ → ℕ

-- the loop of the redials: each starts when the one before has its session or its wait is over
unfoldable pub redial_all : MultiWan → Redialling → ℕ → List String → List Redial
redial_all m o time [] = []
redial_all m o time (n ∷ due) =
    let back = time + o.restart_takes n in
    let next =
      if o.restart n then back + o.wait_takes n time (dial_deadline m.dial_wait back) else back in
    let rest = redial_all m o next due in
    record { name = n; start = time; good = o.restart n } ∷ rest

abbrev pub names_of : Bool → List Redial → List String
names_of good [] = []
names_of good (r ∷ l) =
    let rest = names_of good l in
    if (if good then r.good else not r.good) then r.name ∷ rest else rest

abbrev pub stopped : Reason → RestoreResult
stopped r = record { redials = []; failures = []; reason = r; events = [] }

-- the end of dialRestoreWithOptions, with what is due and the state that says so; `recorded` is
-- writeAtomic without an error, which is ignored
unfoldable pub redial_due :
    MultiWan → Bool → Restores → ℕ → Redialling → List String × Restores → RestoreResult × Restores
redial_due m recorded st time o (due, st') =
    let events = redial_all m o time due in
    if is_nil due then (stopped rate_limited, st) else (
      record {
        redials = names_of true events;
        failures = names_of false events;
        reason = if is_nil (names_of true events) then failed else redialled;
        events = events;
      },
      if recorded then st' else st,
    )

-- dialRestoreWithOptions; `free` is the lock file's, `late` are dialLate's, `st` is the state file
unfoldable pub dial_restore_with :
    MultiWan
    → Bool
    → Bool
    → Bool
    → List String
    → Restores
    → ℕ
    → Redialling
    → RestoreResult × Restores
dial_restore_with m force free recorded late st time o =
    if not force && not (dial_restore_on m)
    then (stopped disabled, st)
    else if not free
    then (stopped already_running, st)
    else if is_nil late
    then (stopped order_ok, st)
    else redial_due m recorded st time o
        (if force then (late, record_all late time st) else dial_due late st time)

pub data DialError : Type 0 where
  needs_order too_few bad_wait bad_restore : DialError
  no_pppoe listed_twice : String → DialError

abbrev pub report : Bool → DialError → List DialError
report true e = e ∷ []
report false e = []

abbrev pub is_pppoe : Option Wan → Bool
is_pppoe none = false
is_pppoe (some w) = w.is_pppoe

-- the loop of netValidateDial, with the names that it has seen
unfoldable pub order_errors : (String → Option Wan) → List String → List String → List DialError
order_errors wan_by_name seen [] = []
order_errors wan_by_name seen (n ∷ names) =
    let rest = order_errors wan_by_name (n ∷ seen) names in
    if not (is_pppoe (wan_by_name n))
    then no_pppoe n ∷ rest
    else if has_name n seen
    then listed_twice n ∷ rest
    else rest

abbrev pub known_restore : Bytes → Bool
known_restore s =
    (dial_restore_time s).1
    || same_bytes s (codes "")
    || same_bytes s (codes "off")
    || same_bytes s (codes "now")

abbrev pub is_zero : ℤ → Bool
is_zero (pos n) = n == 0
is_zero (negsuc n) = false

-- neither negative nor above 120
abbrev pub is_wait : ℤ → Bool
is_wait (pos n) = leb n 120
is_wait (negsuc n) = false

-- netValidateDial
unfoldable pub validate_dial : (String → Option Wan) → MultiWan → List DialError
validate_dial wan_by_name m =
    if is_nil m.dial_order
    then report (not (is_zero m.dial_wait) || not (restore_is_off m.dial_restore)) needs_order
    else report (ltb (length m.dial_order) 2) too_few
      ++ (order_errors wan_by_name [] m.dial_order
          ++ (report (not (is_wait m.dial_wait)) bad_wait
              ++ report (not (known_restore m.dial_restore)) bad_restore))

-- dialCronLine: the minute and the hour of its line
unfoldable pub dial_cron_line : MultiWan → Option (ℕ × ℕ)
dial_cron_line m =
    let ((hour, minute), read) = dial_restore_time m.dial_restore in
    if not read || is_nil m.dial_order then none else some (minute, hour)

pub data OnUp : Type 0 where
  nothing logged spawned : OnUp

-- dialOnUp, as far as it decides
unfoldable pub dial_on_up : MultiWan → String → List String → OnUp
dial_on_up m name late =
    if not (dial_restore_on m) || not (has_name name m.dial_order)
    then nothing
    else if is_nil late
    then nothing
    else if not (same_bytes m.dial_restore (codes "now"))
    then logged
    else spawned
