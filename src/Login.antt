-- ===== src/Login.antt =====
-- The login throttle of mr/api_login.go: loginUpdate, loginBegin, loginSucceeded, checkPasswordFrom,
-- and loginWait of mr/api_token.go, on the shared file. Times are Unix seconds; where sources were
-- last seen in the same second, the order of Go's map, which decides which of them is dropped, is
-- the order of the list.
pub mod Lock
pub mod Attempts
pub mod Throttle
pub mod Sources
pub mod Guessing
pub mod Tests
use text.Mathlib.Text.{◌==◌ as str_eq}
use mini_router.Prelude.{
  ℕ, zero, suc, ◌+◌, ◌-◌, ◌*◌, ◌^◌, ◌%◌, ◌/◌, Bool, true, false, not, ◌&&◌, ◌||◌, String, Option,
  none, some, List, [], ◌∷◌, if◌then◌else◌, ltb, leb, ◌==◌, length, drop,
}

pub record LoginRec : Type 0 where
  pub fails : ℕ
  pub until : ℕ
  pub locks : ℕ
  pub seen : ℕ

abbrev pub no_rec : LoginRec
no_rec = record { fails = 0; until = 0; locks = 0; seen = 0 }

abbrev pub login_max : ℕ
login_max = 5

abbrev pub login_max_lock : ℕ
login_max_lock = 3600

abbrev pub login_forget : ℕ
login_forget = 900

abbrev pub login_sources : ℕ
login_sources = 1024

-- a time.Duration is a signed number of nanoseconds in 64 bits
abbrev pub second : ℕ
second = 1000000000

-- the shift of loginBase, and the cap on it, in seconds
unfoldable pub lock_seconds : ℕ → ℕ
lock_seconds locks =
    let d = (30 * second * 2 ^ locks) % 2 ^ 64 in
    if ltb (login_max_lock * second) d || d == 0 || leb (2 ^ 63) d
    then login_max_lock
    else d / second

pub data Attempt : Type 0 where
  wait : ℕ → Attempt
  allowed : ℕ → ℕ → Attempt

-- the counters after the quiet times of the source
unfoldable pub forget : LoginRec → ℕ → LoginRec
forget r now = record r {
  fails = if ltb (r.seen + login_forget) now then 0 else r.fails;
  locks = if not (r.until == 0) && ltb (r.until + login_max_lock) now then 0 else r.locks;
}

-- the attempt is counted; `allowed` has the failures of the series and the lock that starts
unfoldable pub count : LoginRec → ℕ → LoginRec × Attempt
count r now =
    let fails = r.fails + 1 in
    let lock = lock_seconds r.locks in
    if leb login_max fails
    then (
      record { fails = 0; until = now + lock; locks = r.locks + 1; seen = now },
      allowed fails lock,
    )
    else (record r { fails = fails; seen = now }, allowed fails 0)

-- the change that loginBegin makes to the record
unfoldable pub attempt : LoginRec → ℕ → LoginRec × Attempt
attempt r now = if ltb now r.until then (r, wait (r.until - now)) else count (forget r now) now

abbrev pub Records : Type 0
Records = List (String × LoginRec)

unfoldable pub find_rec : String → Records → LoginRec
find_rec key [] = no_rec
find_rec key ((k, r) ∷ m) = let rest = find_rec key m in if str_eq k key then r else rest

abbrev pub drop_rec : String → Records → Records
drop_rec key [] = []
drop_rec key ((k, r) ∷ m) =
    let rest = drop_rec key m in if str_eq k key then rest else (k, r) ∷ rest

abbrev pub is_no_rec : LoginRec → Bool
is_no_rec r = r.fails == 0 && r.until == 0 && r.locks == 0 && r.seen == 0

unfoldable pub put_rec : String → LoginRec → Records → Records
put_rec key r m = if is_no_rec r then drop_rec key m else (key, r) ∷ drop_rec key m

-- idle for a day, and not locked
abbrev pub is_idle : ℕ → LoginRec → Bool
is_idle now r = ltb (r.seen + 86400) now && ltb r.until now

unfoldable pub drop_idle : ℕ → Records → Records
drop_idle now [] = []
drop_idle now ((k, r) ∷ m) =
    let rest = drop_idle now m in if is_idle now r then rest else (k, r) ∷ rest

insert_by_seen : String → LoginRec → Records → Records
insert_by_seen k r [] = (k, r) ∷ []
insert_by_seen k r ((j, s) ∷ m) =
    let rest = insert_by_seen k r m in
    if ltb s.seen r.seen then (j, s) ∷ rest else (k, r) ∷ (j, s) ∷ m

by_seen : Records → Records
by_seen [] = []
by_seen ((k, r) ∷ m) = insert_by_seen k r (by_seen m)

unfoldable pub prune_sources : Records → Records
unfolding by_seen insert_by_seen
prune_sources m =
    if ltb login_sources (length m) then drop (length m - login_sources) (by_seen m) else m

-- loginUpdate, from the record that its argument left
unfoldable pub login_update : String → LoginRec → ℕ → Records → Records
login_update key r now m = prune_sources (drop_idle now (put_rec key r m))

-- what becomes of the shared file: it is written, an error comes before it is truncated, or it is
-- truncated and then not written
pub data Saving : Type 0 where
  stored untouched emptied : Saving

abbrev pub is_stored : Saving → Bool
is_stored stored = true
is_stored untouched = false
is_stored emptied = false

-- the records of the file, where `m'` are to be written over `m`
abbrev pub saved_records : Saving → Records → Records → Records
saved_records stored m' m = m'
saved_records untouched m' m = m
saved_records emptied m' m = []

-- loginBegin; on an error the attempt goes on, slowed down
unfoldable pub login_begin : Saving → String → ℕ → Records → Records × Attempt
login_begin saving key now m =
    let (r, a) = attempt (find_rec key m) now in
    (saved_records saving (login_update key r now m) m, if is_stored saving then a else allowed 1 0)

-- loginSucceeded
unfoldable pub login_succeeded : Saving → String → ℕ → Records → Records
login_succeeded saving key now m = saved_records saving (login_update key no_rec now m) m

-- loginWait
unfoldable pub login_wait : String → ℕ → Records → ℕ
login_wait key now m = (find_rec key m).until - now

pub data Answer : Type 0 where
  passed : Answer
  too_many : ℕ → Answer
  wrong : Answer

abbrev pub settle : Saving → Bool → String → ℕ → Records → Attempt → Records × Answer
settle saving ok key now m (wait n) = (m, too_many n)
settle saving ok key now m (allowed fails lock) =
    if ok then (login_succeeded saving key now m, passed) else (m, wrong)

-- checkPasswordFrom; `ok` is what checkPassword says, and the file may be written twice
unfoldable pub check_password_from :
    Saving → Saving → Bool → String → ℕ → Records → Records × Answer
check_password_from begun ended ok key now m =
    let (m', a) = login_begin begun key now m in settle ended ok key now m' a
