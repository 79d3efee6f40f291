-- ===== src/Dial/Errors.antt =====
-- netValidateDial has no errors exactly for the dial orders that are meant.
use mini_router.Prelude.{
  ℕ, ◌≡◌, ◌≤◌, ◌<◌, ◌↔◌, refl, Bool, true, false, not, String, Option, List, [], ◌∷◌, ◌++◌, ◌||◌,
  ap, if◌then◌else◌, ltb, length, arith, Bool-cases, inl, inr, ◌⊎◌,
}
use mini_router.Prelude.Bytes.{Bytes, codes}
use mini_router.Strings.{same_bytes, same_bytes_eq}
use mini_router.Dial.Clock.{dial_restore_time_iff, clock_text}
use mini_router.Dial.{
  Wan, ℤ, pos, negsuc, is_zero, is_wait, restore_is_off, needs_order, MultiWan, is_nil, DialError,
  report, order_errors, known_restore, validate_dial, too_few, bad_wait, bad_restore,
  dial_restore_time,
}
use mini_router.Dial.Names.{AllPppoe, IsDistinct, order_errors-none, none-order_errors}

-- empty, one of the words, or a time of the day
abbrev pub IsRestore : Bytes → Type 0
IsRestore s =
    (s ≡ codes "")
    ⊎ ((s ≡ codes "off")
        ⊎ ((s ≡ codes "now") ⊎ ((h m : ℕ) × (h < 24) × (m < 60) × (s ≡ clock_text h m))))

is_wait_iff : (w : ℤ) → (is_wait w ≡ true) ↔ ((s : ℕ) × (w ≡ pos s) × (s ≤ 120))
is_wait_iff (pos n) =
    (λ e. (n, refl, ground arith), λ (s, e, le). let same : n ≡ s = cc in ground arith)
is_wait_iff (negsuc n) = (λ e. cc, λ (s, e, le). cc)

known_restore-IsRestore : (s : Bytes) → known_restore s ≡ true → IsRestore s
known_restore-IsRestore s e = elim (Bool-cases (same_bytes s (codes ""))) [
  | inl a ↦ inl (same_bytes_eq s (codes "") a)
  | inr a ↦ elim (Bool-cases (same_bytes s (codes "off"))) [
    | inl b ↦ inr (inl (same_bytes_eq s (codes "off") b))
    | inr b ↦ elim (Bool-cases (same_bytes s (codes "now"))) [
      | inl c ↦ inr (inr (inl (same_bytes_eq s (codes "now") c)))
      | inr c ↦
          let read : (dial_restore_time s).1 ≡ true = ground arith in
          let (h, m) = (dial_restore_time s).0 in
          let (lh, lm, e) = (dial_restore_time_iff s h m).0 (ap (λ b. ((h, m), b)) read) in
          inr (inr (inr (h, m, lh, lm, e)))
    ]
  ]
]

IsRestore-known_restore : (s : Bytes) → IsRestore s → known_restore s ≡ true
IsRestore-known_restore s (inl e) = let word = ap (λ t. same_bytes t (codes "")) e in ground arith
IsRestore-known_restore s (inr (inl e)) =
    let word = ap (λ t. same_bytes t (codes "off")) e in ground arith
IsRestore-known_restore s (inr (inr (inl e))) =
    let word = ap (λ t. same_bytes t (codes "now")) e in ground arith
IsRestore-known_restore s (inr (inr (inr (h, m, lh, lm, e)))) =
    let read = (dial_restore_time_iff s h m).1 (lh, lm, e) in rw read refl

append_nil_parts : {A : Type 0} (l r : List A) → l ++ r ≡ [] → (l ≡ []) × (r ≡ [])
append_nil_parts [] r e = (refl, e)
append_nil_parts (x ∷ l) r e = ground arith

report_nil : (b : Bool) (x : DialError) → report b x ≡ [] → b ≡ false
report_nil true x e = ground arith
report_nil false x e = refl

errors_nil :
    (b c d : Bool) (x y z : DialError) (l : List DialError)
    → report b x ++ (l ++ (report c y ++ report d z)) ≡ []
    → (b ≡ false) × (l ≡ []) × (c ≡ false) × (d ≡ false)
errors_nil b c d x y z l e =
    let (eb, e2) = append_nil_parts (report b x) (l ++ (report c y ++ report d z)) e in
    let (el, e3) = append_nil_parts l (report c y ++ report d z) e2 in
    let (ec, ed) = append_nil_parts (report c y) (report d z) e3 in
    (report_nil b x eb, el, report_nil c y ec, report_nil d z ed)

listed : (b : Bool) (l r : List DialError) → b ≡ false → (if b then l else r) ≡ [] → r ≡ []
listed b l r h e = ground arith

-- an order that is in use, with its wait and its restore
abbrev pub IsOrder : (String → Option Wan) → MultiWan → Type 0
IsOrder wan_by_name m =
    (2 ≤ length m.dial_order)
    × AllPppoe wan_by_name m.dial_order
    × IsDistinct m.dial_order
    × ((seconds : ℕ) × (m.dial_wait ≡ pos seconds) × (seconds ≤ 120))
    × IsRestore m.dial_restore

-- no order, and neither a wait nor a restore
abbrev pub IsUnused : MultiWan → Type 0
IsUnused m =
    (m.dial_order ≡ [])
    × (m.dial_wait ≡ pos 0)
    × ((m.dial_restore ≡ codes "") ⊎ (m.dial_restore ≡ codes "off"))

is_zero_iff : (w : ℤ) → (is_zero w ≡ true) ↔ (w ≡ pos 0)
is_zero_iff (pos n) = (λ e. ap pos (ground arith), λ e. let none : n ≡ 0 = cc in ground arith)
is_zero_iff (negsuc n) = (λ e. cc, λ e. cc)

restore_is_off_iff : (s : Bytes) → (restore_is_off s ≡ true) ↔ ((s ≡ codes "") ⊎ (s ≡ codes "off"))
restore_is_off_iff s = (to (Bool-cases (same_bytes s (codes ""))), from)
  where
    to :
        (same_bytes s (codes "") ≡ true) ⊎ (same_bytes s (codes "") ≡ false)
        → restore_is_off s ≡ true
        → (s ≡ codes "") ⊎ (s ≡ codes "off")
    to (inl a) e = inl (same_bytes_eq s (codes "") a)
    to (inr a) e = inr (same_bytes_eq s (codes "off") (ground arith))

    from : (s ≡ codes "") ⊎ (s ≡ codes "off") → restore_is_off s ≡ true
    from (inl e) = rw e refl
    from (inr e) = rw e refl

is_nil_iff : (l : List String) → is_nil l ≡ true → l ≡ []
is_nil_iff [] e = refl
is_nil_iff (x ∷ l) e = cc

pub validate_dial-none :
    (wan_by_name : String → Option Wan) (m : MultiWan)
    → validate_dial wan_by_name m ≡ []
    → IsUnused m ⊎ IsOrder wan_by_name m
unfolding validate_dial
validate_dial-none wan_by_name m e = elim (Bool-cases (is_nil m.dial_order)) [
  | inl empty ↦
      let unused : report (not (is_zero m.dial_wait) || not (restore_is_off m.dial_restore))
            needs_order
          ≡ [] =
        rw empty at e in
      let idle = report_nil _ needs_order unused in
      inl (
        is_nil_iff m.dial_order empty,
        (is_zero_iff m.dial_wait).0 (ground arith),
        (restore_is_off_iff m.dial_restore).0 (ground arith),
      )
  | inr full ↦
      let (few, names, wait, restore) =
        errors_nil (ltb (length m.dial_order) 2) (not (is_wait m.dial_wait))
          (not (known_restore m.dial_restore)) too_few bad_wait bad_restore
          (order_errors wan_by_name [] m.dial_order) (listed _ _ _ full e) in
      let (all, distinct, new) = order_errors-none wan_by_name [] m.dial_order names in
      inr (
        ground arith,
        all,
        distinct,
        (is_wait_iff m.dial_wait).0 (ground arith),
        known_restore-IsRestore m.dial_restore (ground arith),
      )
]

IsOrder-none :
    (wan_by_name : String → Option Wan) (m : MultiWan)
    → IsOrder wan_by_name m
    → validate_dial wan_by_name m ≡ []
unfolding validate_dial
IsOrder-none wan_by_name m (two, all, distinct, wait, restore) =
    let fit : is_wait m.dial_wait ≡ true = (is_wait_iff m.dial_wait).1 wait in
    let known = IsRestore-known_restore m.dial_restore restore in
    let names = none-order_errors wan_by_name [] m.dial_order all distinct (λ n k. refl) in
    let few : ltb (length m.dial_order) 2 ≡ false = ground arith in
    let full : is_nil m.dial_order ≡ false = full_of m.dial_order two in
    rw (full, few, names, fit, known) refl
  where
    full_of : (l : List String) → 2 ≤ length l → is_nil l ≡ false
    full_of [] two = absurd (omega arith)
    full_of (x ∷ l) two = refl

IsUnused-none :
    (wan_by_name : String → Option Wan) (m : MultiWan)
    → IsUnused m
    → validate_dial wan_by_name m ≡ []
unfolding validate_dial
IsUnused-none wan_by_name m (empty, wait, restore) =
    let zero = (is_zero_iff m.dial_wait).1 wait in
    let off = (restore_is_off_iff m.dial_restore).1 restore in rw (empty, zero, off) refl

-- netValidateDial has no error exactly for a config with no dial order, no wait and no restore but
-- "off", and for one whose dial order has two names or more, none of them twice and each that of a PPPoE
-- WAN, with a wait of 0 to 120 seconds, and a restore that is empty, "off", "now" or a time of the day
-- as HH:MM.
pub validate_dial_iff :
    (wan_by_name : String → Option Wan) (m : MultiWan)
    → (validate_dial wan_by_name m ≡ []) ↔ (IsUnused m ⊎ IsOrder wan_by_name m)
validate_dial_iff wan_by_name m = (validate_dial-none wan_by_name m, back)
  where
    back : IsUnused m ⊎ IsOrder wan_by_name m → validate_dial wan_by_name m ≡ []
    back (inl u) = IsUnused-none wan_by_name m u
    back (inr o) = IsOrder-none wan_by_name m o

-- the restore of an order in use is known
pub used_restore :
    (wan_by_name : String → Option Wan) (m : MultiWan)
    → is_nil m.dial_order ≡ false
    → IsUnused m ⊎ IsOrder wan_by_name m
    → known_restore m.dial_restore ≡ true
used_restore wan_by_name m full (inl (empty, wait, restore)) = absurd (differ (rw empty at full))
  where
    differ : true ≡ false → ⊥
    differ e = cc
used_restore wan_by_name m full (inr (two, all, distinct, wait, restore)) =
    IsRestore-known_restore m.dial_restore restore
