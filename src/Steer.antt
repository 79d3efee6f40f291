-- ===== src/Steer.antt =====
-- Band steering (mr/mod_wifi_steer.go): which stations a run asks to move to 5 GHz, and the state
-- that limits the requests. Times are Unix seconds; a signal is its distance below 0 dBm, and 0 is
-- "unknown" as in the source. What hostapd answers, and the neighbour reports, are arguments.
pub mod Limits
pub mod Entries
pub mod Pace
pub mod Tests
use text.Mathlib.Text.{◌==◌ as str_eq}
use mini_router.Prelude.{
  ℕ, zero, suc, ◌+◌, ◌-◌, ◌*◌, ◌/◌, ◌%◌, Bool, true, false, not, ◌&&◌, ◌||◌, String, Option, none,
  some, List, [], ◌∷◌, ◌++◌, if◌then◌else◌, ltb, leb, ◌==◌, length, drop,
}
use mini_router.Prelude.Bytes.{Bytes}

abbrev pub steer_min_signal : ℕ
steer_min_signal = 60

abbrev pub steer_min_conn : ℕ
steer_min_conn = 60

abbrev pub steer_cooldown : ℕ
steer_cooldown = 1800

abbrev pub steer_reject_hold : ℕ
steer_reject_hold = 14400

abbrev pub steer_window : ℕ
steer_window = 86400

abbrev pub steer_day_max : ℕ
steer_day_max = 3

abbrev pub steer_tick_max : ℕ
steer_tick_max = 4

abbrev pub steer_recent_max : ℕ
steer_recent_max = 20

abbrev pub steer_dev_max : ℕ
steer_dev_max = 64

-- a station as hostapd describes it; `authorized` is the flag [AUTHORIZED]
pub record HapdSta : Type 0 where
  pub mac : String
  pub authorized : Bool
  pub signal : ℕ
  pub connected : ℕ
  pub ext_capab : Bytes
  pub op_classes : Bytes

-- bit 19 of the extended capabilities: bit 3 of the third byte
unfoldable pub btm : Bytes → Bool
btm [] = false
btm (a ∷ []) = false
btm (a ∷ b ∷ []) = false
btm (a ∷ b ∷ c ∷ s) = c / 8 % 2 == 1

pub data Support : Type 0 where
  has_5g no_5g unsaid : Support

-- the loop of has5g over the classes after the current one
unfoldable pub lists_5g : Bytes → Support
lists_5g [] = no_5g
lists_5g (c ∷ s) =
    let rest = lists_5g s in
    if c == 0 || c == 130 then no_5g else if leb 115 c && leb c 129 then has_5g else rest

unfoldable pub has5g : Bytes → Support
has5g [] = unsaid
has5g (c ∷ []) = unsaid
has5g (c ∷ d ∷ s) = lists_5g (d ∷ s)

abbrev pub is_no_5g : Support → Bool
is_no_5g has_5g = false
is_no_5g no_5g = true
is_no_5g unsaid = false

pub data Outcome : Type 0 where
  accepted rejected noreply failed : Outcome

abbrev pub was_rejected : Outcome → Bool
was_rejected accepted = false
was_rejected rejected = true
was_rejected noreply = false
was_rejected failed = false

-- steerSta
pub record SteerSta : Type 0 where
  pub first : ℕ
  pub n : ℕ
  pub last : ℕ
  pub result : Outcome
  pub to : String
  pub moved : Bool

pub record Steering : Type 0 where
  pub exclude : List String
  pub min_signal_2g : ℕ

pub data Why : Type 0 where
  ask excluded not_authorized no_btm no_5g_support signal_unknown too_weak just_connected : Why
  asked_enough declined_recently asked_recently : Why

abbrev pub has_name : String → List String → Bool
has_name x [] = false
has_name x (y ∷ l) = let rest = has_name x l in str_eq y x || rest

abbrev pub asked_before : SteerSta → ℕ → Why
asked_before e now =
    if ltb (now - e.first) steer_window && leb steer_day_max e.n
    then asked_enough
    else if was_rejected e.result && ltb (now - e.last) steer_reject_hold
    then declined_recently
    else if ltb (now - e.last) steer_cooldown
    then asked_recently
    else ask

abbrev pub asked_last : Option SteerSta → ℕ → Why
asked_last none now = ask
asked_last (some e) now = asked_before e now

-- steerWhy
unfoldable pub steer_why : HapdSta → Option SteerSta → Steering → ℕ → Why
steer_why s e conf now =
    let limit = if conf.min_signal_2g == 0 then steer_min_signal else conf.min_signal_2g in
    if has_name s.mac conf.exclude
    then excluded
    else if not s.authorized
    then not_authorized
    else if not (btm s.ext_capab)
    then no_btm
    else if is_no_5g (has5g s.op_classes)
    then no_5g_support
    else if s.signal == 0
    then signal_unknown
    else if ltb limit s.signal
    then too_weak
    else if ltb s.connected steer_min_conn
    then just_connected
    else asked_last e now

pub record SteerRec : Type 0 where
  pub at_time : ℕ
  pub station : String
  pub target : String
  pub answer : Outcome
  pub is_moved : Bool

pub record SteerDev : Type 0 where
  pub last : ℕ
  pub accepts : ℕ
  pub rejects : ℕ
  pub noreplies : ℕ
  pub moves : ℕ

pub record SteerState : Type 0 where
  pub token : ℕ
  pub sta : List (String × SteerSta)
  pub sent : ℕ
  pub recent : List SteerRec
  pub dev : List (String × SteerDev)

unfoldable pub find_sta : String → List (String × SteerSta) → Option SteerSta
find_sta mac [] = none
find_sta mac ((m, e) ∷ l) = let rest = find_sta mac l in if str_eq m mac then some e else rest

-- the entry is replaced where it stands, or added
unfoldable pub put_sta : String → SteerSta → List (String × SteerSta) → List (String × SteerSta)
put_sta mac x [] = (mac, x) ∷ []
put_sta mac x ((m, e) ∷ l) =
    let rest = put_sta mac x l in if str_eq m mac then (m, x) ∷ l else (m, e) ∷ rest

unfoldable pub find_dev : String → List (String × SteerDev) → Option SteerDev
find_dev mac [] = none
find_dev mac ((m, d) ∷ l) = let rest = find_dev mac l in if str_eq m mac then some d else rest

unfoldable pub put_dev : String → SteerDev → List (String × SteerDev) → List (String × SteerDev)
put_dev mac x [] = (mac, x) ∷ []
put_dev mac x ((m, d) ∷ l) =
    let rest = put_dev mac x l in if str_eq m mac then (m, x) ∷ l else (m, d) ∷ rest

-- the least recently asked one of the others and this one
unfoldable pub oldest : String → ℕ → List (String × SteerDev) → String
oldest old t [] = old
oldest old t ((m, d) ∷ l) =
    let older = oldest m d.last l in
    let same = oldest old t l in if ltb d.last t then older else same

unfoldable pub drop_dev : String → List (String × SteerDev) → List (String × SteerDev)
drop_dev mac [] = []
drop_dev mac ((m, d) ∷ l) = let rest = drop_dev mac l in if str_eq m mac then l else (m, d) ∷ rest

abbrev pub drop_oldest : List (String × SteerDev) → List (String × SteerDev)
drop_oldest [] = []
drop_oldest ((m, d) ∷ l) = drop_dev (oldest m d.last l) ((m, d) ∷ l)

abbrev pub new_dev : SteerDev
new_dev = record { last = 0; accepts = 0; rejects = 0; noreplies = 0; moves = 0 }

abbrev pub counted : Outcome → SteerDev → ℕ → SteerDev
counted accepted d now = record d { last = now; accepts = d.accepts + 1 }
counted rejected d now = record d { last = now; rejects = d.rejects + 1 }
counted noreply d now = record d { last = now; noreplies = d.noreplies + 1 }
counted failed d now = record d { last = now; noreplies = d.noreplies + 1 }

abbrev pub room : List (String × SteerDev) → List (String × SteerDev)
room l = if leb steer_dev_max (length l) then drop_oldest l else l

-- dev, and the counter of the answer
abbrev pub note_dev :
    Outcome → String → ℕ → Option SteerDev → List (String × SteerDev) → List (String × SteerDev)
note_dev o mac now none l = put_dev mac (counted o new_dev now) (room l)
note_dev o mac now (some d) l = put_dev mac (counted o d now) l

-- the window goes on, or a new one starts
abbrev pub window_of : Option SteerSta → ℕ → ℕ × ℕ
window_of none now = (now, 0)
window_of (some e) now = if leb steer_window (now - e.first) then (now, 0) else (e.first, e.n)

abbrev pub keep_recent : List SteerRec → List SteerRec
keep_recent l = if ltb steer_recent_max (length l) then drop (length l - steer_recent_max) l else l

-- steerSend, with the answer
unfoldable pub steer_send : SteerState → String → String → Outcome → ℕ → SteerState
steer_send st mac to o now =
    let (first, n) = window_of (find_sta mac st.sta) now in
    record {
      token = st.token % 255 + 1;
      sta =
          put_sta mac
            (record { first = first; n = n + 1; last = now; result = o; to = to; moved = false })
            st.sta;
      sent = st.sent + 1;
      recent = keep_recent (
          st.recent
          ++ (record { at_time = now; station = mac; target = to; answer = o; is_moved = false }
              ∷ []));
      dev = note_dev o mac now (find_dev mac st.dev) st.dev;
    }

-- the part of save that forgets stations
unfoldable pub forget_sta : ℕ → List (String × SteerSta) → List (String × SteerSta)
forget_sta now [] = []
forget_sta now ((m, e) ∷ l) =
    let rest = forget_sta now l in if ltb steer_window (now - e.last) then rest else (m, e) ∷ rest

unfoldable pub save : ℕ → SteerState → SteerState
save now st = record st { sta = forget_sta now st.sta }

abbrev pub is_ask : Why → Bool
is_ask ask = true
is_ask excluded = false
is_ask not_authorized = false
is_ask no_btm = false
is_ask no_5g_support = false
is_ask signal_unknown = false
is_ask too_weak = false
is_ask just_connected = false
is_ask asked_enough = false
is_ask declined_recently = false
is_ask asked_recently = false

-- the loop of steerPass over the stations of one BSS, which is not dry; the result is the state, the
-- requests of the run so far, and who was asked
unfoldable pub steer_stations :
    Steering
    → String
    → (String → Outcome)
    → ℕ
    → List HapdSta
    → SteerState
    → ℕ
    → (SteerState × ℕ) × List String
steer_stations conf to answer now [] st sent = ((st, sent), [])
steer_stations conf to answer now (s ∷ stations) st sent =
    let steer =
      is_ask (steer_why s (find_sta s.mac st.sta) conf now) && not (leb steer_tick_max sent) in
    let (r, asked) =
      steer_stations conf to answer now stations
        (if steer then steer_send st s.mac to (answer s.mac) now else st)
        (if steer then sent + 1 else sent) in
    (r, if steer then s.mac ∷ asked else asked)
