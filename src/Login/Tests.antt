-- ===== src/Login/Tests.antt =====
-- Somebody tries passwords from two addresses.
use text.Mathlib.Text.{◌==◌ as str_eq}
use mini_router.Prelude.{ℕ, ◌*◌, ◌^◌, ◌≡◌, refl, String, List, [], ◌∷◌, if◌then◌else◌, min, arith}
use mini_router.Login.{
  LoginRec, no_rec, attempt, count, forget, lock_seconds, Records, find_rec, stored, emptied,
  login_begin, login_update, put_rec, drop_idle, prune_sources, check_password_from,
}
use mini_router.Login.Lock.{lock_seconds-doubled}
use mini_router.Login.Throttle.{IsThrottled, IsMonotone}
use mini_router.Login.Guessing.{let_through, let_through-IsThrottled, HasRoom}
use mini_router.Login.Sources.{find_rec-login_begin, kept, IsDistinct}

lock_seconds-doubled_example : lock_seconds 3 ≡ min (30 * 2 ^ 3) 3600
lock_seconds-doubled_example = lock_seconds-doubled 3

-- two sources, of which the first one tries too often
abbrev tries : List (String × ℕ)
tries =
    ("192.0.2.1", 1000)
    ∷ ("192.0.2.1", 1001)
    ∷ ("192.0.2.2", 1001)
    ∷ ("192.0.2.1", 1002)
    ∷ ("192.0.2.1", 1003)
    ∷ ("192.0.2.1", 1004)
    ∷ ("192.0.2.1", 1005)
    ∷ ("192.0.2.1", 1034)
    ∷ []

let_through-tries : let_through "192.0.2.1" [] tries ≡ 1000 ∷ 1001 ∷ 1002 ∷ 1003 ∷ 1004 ∷ 1034 ∷ []
unfolding let_through check_password_from login_begin login_update put_rec drop_idle prune_sources
    find_rec attempt count forget lock_seconds
let_through-tries = refl

rising : IsMonotone 1000 tries
rising = omega arith

has_room : HasRoom [] tries
unfolding HasRoom check_password_from login_begin login_update put_rec drop_idle prune_sources
    find_rec attempt count forget lock_seconds
has_room = omega arith

nothing_known : find_rec "192.0.2.1" [] ≡ no_rec
unfolding find_rec
nothing_known = refl

let_through-IsThrottled_example : IsThrottled (let_through "192.0.2.1" [] tries)
let_through-IsThrottled_example =
    let_through-IsThrottled "192.0.2.1" 1000 [] tries tt nothing_known has_room rising

abbrev locked_rec : LoginRec
locked_rec = record { fails = 0; until = 1034; locks = 1; seen = 1004 }

abbrev two_sources : Records
two_sources =
    ("192.0.2.1", locked_rec)
    ∷ ("192.0.2.2", record { fails = 1; until = 0; locks = 0; seen = 900 })
    ∷ []

distinct : IsDistinct two_sources
distinct = (refl, (refl, tt))

find_rec-login_begin_example :
    find_rec "192.0.2.2" (login_begin stored "192.0.2.1" 1010 two_sources).0
    ≡ kept 1010 (
        if str_eq "192.0.2.1" "192.0.2.2"
        then (attempt (find_rec "192.0.2.1" two_sources) 1010).0
        else find_rec "192.0.2.2" two_sources)
find_rec-login_begin_example =
    find_rec-login_begin "192.0.2.1" "192.0.2.2" 1010 two_sources distinct (omega arith)

-- a file that is truncated and not written forgets every source
file_emptied : (login_begin emptied "192.0.2.1" 1010 two_sources).0 ≡ []
unfolding login_begin
file_emptied = refl
