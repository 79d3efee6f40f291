-- ===== src/Login/Guessing.antt =====
-- Somebody tries passwords: how often a source reaches the password check.
use text.Mathlib.Text.{◌==◌ as str_eq}
use mini_router.Prelude.{
  ℕ, ◌<◌, ◌≡◌, refl, Bool, true, false, ◌&&◌, String, List, [], ◌∷◌, if◌then◌else◌, length, ap, sym,
  ◌∙◌, map, subst, arith, Bool-cases, inl, inr, eq_iff,
}
use mini_router.Login.{
  no_rec, Attempt, wait, allowed, attempt, Records, find_rec, stored, login_begin, Answer, passed,
  too_many, wrong, settle, check_password_from,
}
use mini_router.Login.Sources.{IsDistinct, kept, find_rec-login_begin, IsDistinct-login_begin}
use mini_router.Login.Attempts.{is_allowed}
use mini_router.Login.Throttle.{through, through-IsThrottled, IsMonotone, IsThrottled}

-- the password was looked at
abbrev pub is_checked : Answer → Bool
is_checked passed = true
is_checked (too_many n) = false
is_checked wrong = true

-- Attempts of any sources, all with wrong passwords: the times of those of `key` whose password is
-- looked at.
unfoldable pub let_through : String → Records → List (String × ℕ) → List ℕ
let_through key m [] = []
let_through key m ((k, t) ∷ l) =
    let rest = let_through key (check_password_from stored stored false k t m).0 l in
    if str_eq k key && is_checked (check_password_from stored stored false k t m).1
    then t ∷ rest
    else rest

-- At each of the attempts, fewer than 1024 sources are on record.
unfoldable pub HasRoom : Records → List (String × ℕ) → Type 0
HasRoom m [] = Unit
HasRoom m ((k, t) ∷ l) =
    (length m < 1024) × HasRoom (check_password_from stored stored false k t m).0 l

settle_wrong :
    (k : String) (t : ℕ) (m : Records) (a : Attempt)
    → ((settle stored false k t m a).0 ≡ m)
      × (is_checked (settle stored false k t m a).1 ≡ is_allowed a)
settle_wrong k t m (wait n) = (refl, refl)
settle_wrong k t m (allowed f l) = (refl, refl)

check_password_from_wrong :
    (k : String) (t : ℕ) (m : Records)
    → ((check_password_from stored stored false k t m).0 ≡ (login_begin stored k t m).0)
      × (is_checked (check_password_from stored stored false k t m).1
          ≡ is_allowed (attempt (find_rec k m) t).1)
unfolding check_password_from login_begin
check_password_from_wrong k t m = settle_wrong k t _ (attempt (find_rec k m) t).1

own_time : String → String × ℕ → Bool × ℕ
own_time key (k, t) = (str_eq k key, t)

IsMonotone-own_time :
    (key : String) (now : ℕ) (l : List (String × ℕ))
    → IsMonotone now l
    → IsMonotone now (map (own_time key) l)
unfolding own_time
IsMonotone-own_time key now [] m = tt
IsMonotone-own_time key now ((k, t) ∷ l) (le, m) = (le, IsMonotone-own_time key t l m)

-- of the record of `key`, an attempt of `k` changes what its own source changes
own_change :
    (key k : String) (t : ℕ) (m : Records)
    → (if str_eq k key then (attempt (find_rec k m) t).0 else find_rec key m)
      ≡ (if str_eq k key then (attempt (find_rec key m) t).0 else find_rec key m)
own_change key k t m = elim (Bool-cases (str_eq k key)) [
  | inl e ↦ rw e (ap (λ x. (attempt (find_rec x m) t).0) ((eq_iff k key).0 e))
  | inr e ↦ rw e refl
]

own_test :
    (key k : String) (t : ℕ) (m : Records)
    → (str_eq k key && is_allowed (attempt (find_rec k m) t).1)
      ≡ (str_eq k key && is_allowed (attempt (find_rec key m) t).1)
own_test key k t m = elim (Bool-cases (str_eq k key)) [
  | inl e ↦ rw e (ap (λ x. is_allowed (attempt (find_rec x m) t).1) ((eq_iff k key).0 e))
  | inr e ↦ rw e refl
]

listed_if : Bool → ℕ → List ℕ → List ℕ
listed_if b t l = if b then t ∷ l else l

let_through-through :
    (key : String) (m : Records) (l : List (String × ℕ))
    → IsDistinct m
    → HasRoom m l
    → let_through key m l ≡ through (find_rec key m) (map (own_time key) l)
unfolding let_through HasRoom through own_time listed_if
let_through-through key m [] d room = refl
let_through-through key m ((k, t) ∷ l) d (few, room) =
    let (same, seen) = check_password_from_wrong k t m in
    let m' = (login_begin stored k t m).0 in
    let r' = if str_eq k key then (attempt (find_rec key m) t).0 else find_rec key m in
    let later : let_through key m' l ≡ through (find_rec key m') (map (own_time key) l) =
      let_through-through key m' l (IsDistinct-login_begin k t m d few)
        (subst (λ x. HasRoom x l) same room) in
    let record_of : find_rec key m' ≡ kept t r' =
      find_rec-login_begin k key t m d few ∙ ap (kept t) (own_change key k t m) in
    let rest : let_through key (check_password_from stored stored false k t m).0 l
        ≡ through (kept t r') (map (own_time key) l) =
      ap (λ x. let_through key x l) same
      ∙ later
      ∙ ap (λ r. through r (map (own_time key) l)) record_of in
    ap
      (λ b.
        listed_if (str_eq k key && b) t
          (let_through key (check_password_from stored stored false k t m).0 l))
      seen
    ∙ ap (λ b. listed_if b t (let_through key (check_password_from stored stored false k t m).0 l))
        (own_test key k t m)
    ∙ ap (listed_if (str_eq k key && is_allowed (attempt (find_rec key m) t).1) t) rest

-- On a shared file that can be written, with one record for each source and fewer than 1024 sources at
-- each attempt, with a clock that does not go back and with wrong passwords only, whoever makes the
-- attempts: of a source with no record at first, any six attempts in a row whose password is looked at
-- take 30 seconds at least.
pub let_through-IsThrottled :
    (key : String) (now : ℕ) (m : Records) (l : List (String × ℕ))
    → IsDistinct m
    → find_rec key m ≡ no_rec
    → HasRoom m l
    → IsMonotone now l
    → IsThrottled (let_through key m l)
let_through-IsThrottled key now m l d new room rising =
    subst IsThrottled (sym (let_through-through key m l d room)) (
      through-IsThrottled now (find_rec key m) (map (own_time key) l)
        (rw new (omega arith, omega arith)) (IsMonotone-own_time key now l rising))
