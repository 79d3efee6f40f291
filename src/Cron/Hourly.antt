-- ===== src/Cron/Hourly.antt =====
-- What checkCron accepts: a task that runs at one minute of the hour, a reboot at one minute of the
-- day, and a text that is safe in the crontab.
use text.Mathlib.Text.{◌==◌ as str_eq}
use mini_router.Prelude.{
  ℕ, ◌≡◌, ◌≤◌, refl, Bool, true, not, ◌&&◌, String, List, [], ◌∷◌, if◌then◌else◌, ◌==◌, length,
  arith, ap, ◌∙◌, sym, subst, ==_iff,
}
use mini_router.Prelude.Bytes.{Bytes}
use mini_router.Strings.{fields, join, nth}
use mini_router.Cron.{
  digits_from, CronField, minute, hour, field_min, field_max, Checked, ok, err, ◌>>=◌, want_fields,
  minute_single, hour_single, in_field_error, parse_cron_field, check_fields, cron_fields,
  is_single, check_cron, field_holds, Wall, cron_match,
}
use mini_router.Cron.Single.{some_holds_single}

-- the field was parsed, and it is one number if the test says so
abbrev pub SinglesOf : List CronField → List Bytes → List Bool → Type 0
SinglesOf [] f single = Unit
SinglesOf (i ∷ is) [] single = Unit
SinglesOf (i ∷ is) (x ∷ f) [] = ⊥
SinglesOf (i ∷ is) (x ∷ f) (s ∷ single) =
    (parse_cron_field x (field_min i) (field_max i) ≡ ok s) × SinglesOf is f single

single_cons :
    (i : CronField) (p : Checked Bool) (c : Checked (List Bool)) (single : List Bool)
    → (in_field_error i p >>= λ s. c >>= λ l. ok (s ∷ l)) ≡ ok single
    → (s : Bool) × (l : List Bool) × ((p ≡ ok s) × ((c ≡ ok l) × (single ≡ s ∷ l)))
single_cons i (ok s) (ok l) single e = (s, l, (refl, (refl, cc)))
single_cons i (ok s) (err x) single e = ground arith
single_cons i (err x) c single e = ground arith

pub check_fields-SinglesOf :
    (is : List CronField) (f : List Bytes) (single : List Bool)
    → check_fields is f ≡ ok single
    → SinglesOf is f single
unfolding check_fields
check_fields-SinglesOf [] f single e = tt
check_fields-SinglesOf (i ∷ is) [] single e = tt
check_fields-SinglesOf (i ∷ is) (x ∷ f) single e =
    let (s, l, (parsed, (rest, eq))) =
      single_cons i (parse_cron_field x (field_min i) (field_max i)) (check_fields is f) single e in
    subst (SinglesOf (i ∷ is) (x ∷ f)) (sym eq) (parsed, check_fields-SinglesOf is f l rest)

-- the end of checkCron
pub accepted_parts :
    (f : List Bytes) (c : Checked (List Bool)) (action : String) (r : Bytes)
    → (if not (length f == 5)
        then err (want_fields (length f))
        else c >>= λ single.
            if not (is_single 0 single)
            then err minute_single
            else if str_eq action "reboot" && not (is_single 1 single)
            then err hour_single
            else ok (join f))
      ≡ ok r
    → (length f ≡ 5)
      × ((single : List Bool) × ((c ≡ ok single)
            × ((is_single 0 single ≡ true)
                × ((str_eq action "reboot" ≡ true → is_single 1 single ≡ true) × (r ≡ join f)))))
accepted_parts f (ok single) action r e =
    let five : length f ≡ 5 = ground arith in
    let first : is_single 0 single ≡ true = ground arith in
    let second : str_eq action "reboot" ≡ true → is_single 1 single ≡ true = ground arith in
    (five, (single, (refl, (first, (second, ground arith)))))
accepted_parts f (err x) action r e = ground arith

-- the first field of five was parsed as one number if its flag is set, and so was the second
single_field :
    (f : List Bytes) (single : List Bool)
    → length f ≡ 5
    → SinglesOf cron_fields f single
    → (is_single 0 single ≡ true → parse_cron_field (nth f 0) 0 59 ≡ ok true)
      × (is_single 1 single ≡ true → parse_cron_field (nth f 1) 0 23 ≡ ok true)
unfolding field_min field_max
single_field [] single five p = ground arith
single_field (a ∷ []) single five p = ground arith
single_field (a ∷ b ∷ f) [] five p = absurd p
single_field (a ∷ b ∷ f) (s ∷ []) five p = absurd p.1
single_field (a ∷ b ∷ f) (s ∷ z ∷ single) five (pa, (pb, p)) =
    (λ e. pa ∙ ap ok e, λ e. pb ∙ ap ok e)

-- the expression runs at no other value of that part of the time
abbrev pub OnlyAt : Bytes → (Wall → ℕ) → ℕ → Type 0
OnlyAt spec part n = (t : Wall) → cron_match spec t ≡ true → part t ≡ n

cron_match-parts :
    (spec : Bytes) (t : Wall)
    → cron_match spec t ≡ true
    → (field_holds minute (nth (fields spec) 0) t.minute_of ≡ true)
      × (field_holds hour (nth (fields spec) 1) t.hour_of ≡ true)
unfolding cron_match
cron_match-parts spec t e = ground arith

-- A task whose expression was accepted runs at one minute of the hour only, and a reboot at one hour
-- of the day.
pub check_cron-OnlyAt :
    (spec : Bytes) (action : String) (r : Bytes)
    → check_cron spec action ≡ ok r
    → ((m : ℕ) × (m ≤ 59) × OnlyAt spec Wall.minute_of m)
      × (str_eq action "reboot" ≡ true → (h : ℕ) × (h ≤ 23) × OnlyAt spec Wall.hour_of h)
unfolding check_cron field_holds field_min field_max
check_cron-OnlyAt spec action r e =
    let f = fields spec in
    let (five, (single, (checked, (first, (second, eq))))) =
      accepted_parts f (check_fields cron_fields f) action r e in
    let (minutes, hours) =
      single_field f single five (check_fields-SinglesOf cron_fields f single checked) in
    let (only, (low, high)) = some_holds_single (nth f 0) 0 59 (minutes first) in
    (
      (
        digits_from 0 (nth f 0),
        high,
        λ t h.
            (==_iff (Wall.minute_of t) (digits_from 0 (nth f 0))).0
              (sym (only (Wall.minute_of t)) ∙ (cron_match-parts spec t h).0),
      ),
      λ reboot.
          let (only, (low, high)) = some_holds_single (nth f 1) 0 23 (hours (second reboot)) in
          (
            digits_from 0 (nth f 1),
            high,
            λ t h.
                (==_iff (Wall.hour_of t) (digits_from 0 (nth f 1))).0
                  (sym (only (Wall.hour_of t)) ∙ (cron_match-parts spec t h).1),
          ),
    )
