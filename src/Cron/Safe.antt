-- ===== src/Cron/Safe.antt =====
-- The bytes of an accepted expression, which goes into root's crontab.
use mini_router.Prelude.{
  ℕ, ◌≡◌, refl, Bool, true, not, ◌&&◌, ◌||◌, String, Option, none, some, List, [], ◌∷◌, ◌++◌,
  if◌then◌else◌, ◌==◌, length, arith, sym, subst, Bool-cases, inl, inr,
}
use mini_router.Prelude.Bytes.{Bytes, has_byte, all_bytes}
use mini_router.Strings.{split, split_if, cut, cons_first, fields, join}
use mini_router.Cron.{
  Nothing, is_digit, go_atoi, CronField, field_min, field_max, Checked, ok, err, ◌>>=◌, bad_step,
  step_needs_range, too_many_items, cron_number, is_step_number, is_step, is_star, cron_range,
  cron_item, cron_items, parse_cron_field, check_fields, cron_fields, check_cron,
}
use mini_router.Cron.Hourly.{accepted_parts, SinglesOf, check_fields-SinglesOf}

-- digits, * , - / and the plus sign that strconv.Atoi allows in a step
abbrev pub is_cron_byte : ℕ → Bool
is_cron_byte c = is_digit c || c == b'*' || c == b',' || c == b'-' || c == b'/' || c == b'+'

abbrev are_cron : List Bytes → Bool
are_cron [] = true
are_cron (w ∷ ws) = all_bytes is_cron_byte w && are_cron ws

abbrev done : Checked Nothing
done = ok tt

-- a check that succeeded was made of checks that did
bind_ok {ℓ κ} :
    {A : Type ℓ} {B : Type κ} (c : Checked A) (f : A → Checked B) (b : B)
    → (c >>= f) ≡ ok b
    → (a : A) × (c ≡ ok a) × (f a ≡ ok b)
bind_ok (ok a) f b e = (a, refl, e)
bind_ok (err x) f b e = ground arith

and_true : (b c : Bool) → b ≡ true → c ≡ true → b && c ≡ true
and_true b c h k = ground arith

true_and : (b c : Bool) → b && c ≡ true → (b ≡ true) × (c ≡ true)
true_and b c h = ground arith

digits-are_cron : (s : Bytes) → all_bytes is_digit s ≡ true → all_bytes is_cron_byte s ≡ true
digits-are_cron [] h = refl
digits-are_cron (c ∷ s) h = ground (arith, digits-are_cron s)

cron_number-safe :
    (x : Bytes) (lo hi n : ℕ) → cron_number x lo hi ≡ ok n → all_bytes is_cron_byte x ≡ true
unfolding cron_number
cron_number-safe x lo hi n e = ground (arith, digits-are_cron x)

go_atoi-safe : (s : Bytes) (z : Bool × ℕ) → go_atoi s ≡ some z → all_bytes is_cron_byte s ≡ true
unfolding go_atoi
go_atoi-safe [] z e = ground arith
go_atoi-safe (c ∷ s) z e = ground (arith, digits-are_cron s)

is_step-safe : (s : Bytes) (lo hi : ℕ) → is_step s lo hi ≡ true → all_bytes is_cron_byte s ≡ true
unfolding is_step
is_step-safe s lo hi e = number (go_atoi s) refl (both _ _ e)
  where
    both : (b c : Bool) → b && c ≡ true → b ≡ true
    both b c e = ground arith

    number :
        (o : Option (Bool × ℕ))
        → go_atoi s ≡ o
        → is_step_number o lo hi ≡ true
        → all_bytes is_cron_byte s ≡ true
    number none eq e = ground arith
    number (some z) eq e = go_atoi-safe s z eq

-- a text whose two sides of the separator are safe is safe
cut-safe :
    (b : ℕ) (s : Bytes)
    → is_cron_byte b ≡ true
    → all_bytes is_cron_byte (cut b s).0 ≡ true
    → ((cut b s).1.1 ≡ true → all_bytes is_cron_byte (cut b s).1.0 ≡ true)
    → all_bytes is_cron_byte s ≡ true
unfolding cut
cut-safe b [] k h j = refl
cut-safe b (c ∷ s) k h j = elim (Bool-cases (c == b)) [
  | inl e ↦
      let rest : true ≡ true → all_bytes is_cron_byte s ≡ true = rw e at j in
      let same : c ≡ b = ground arith in
      subst (λ d. is_cron_byte d && all_bytes is_cron_byte s ≡ true) (sym same)
        (and_true _ _ k (rest refl))
  | inr e ↦
      let h' : is_cron_byte c && all_bytes is_cron_byte (cut b s).0 ≡ true = rw e at h in
      let j' : (cut b s).1.1 ≡ true → all_bytes is_cron_byte (cut b s).1.0 ≡ true = rw e at j in
      let (hc, hs) = true_and _ _ h' in and_true _ _ hc (cut-safe b s k hs j')
]

split_if-safe : (s : Bytes) → are_cron (split b',' s) ≡ true → all_bytes is_cron_byte s ≡ true
unfolding split_if
split_if-safe [] h = refl
split_if-safe (c ∷ s) h = elim (Bool-cases (c == b',')) [
  | inl e ↦
      let rest : are_cron (split b',' s) ≡ true = rw e at h in
      let same : c ≡ b',' = ground arith in
      subst (λ d. is_cron_byte d && all_bytes is_cron_byte s ≡ true) (sym same)
        (and_true _ _ refl (split_if-safe s rest))
  | inr e ↦
      let h' : are_cron (cons_first c (split b',' s)) ≡ true = rw e at h in
      let (hc, hs) = first_safe (split b',' s) h' in and_true _ _ hc (split_if-safe s hs)
]
  where
    first_safe :
        (ws : List Bytes)
        → are_cron (cons_first c ws) ≡ true
        → (is_cron_byte c ≡ true) × (are_cron ws ≡ true)
    first_safe [] h = ((true_and _ _ (true_and _ _ h).0).0, refl)
    first_safe (w ∷ ws) h = ground arith

cron_range-safe :
    (rng : Bytes) (lo hi : ℕ) → cron_range rng lo hi ≡ ok tt → all_bytes is_cron_byte rng ≡ true
unfolding cron_range
cron_range-safe rng lo hi e =
    let (x, first, e') = bind_ok (cron_number (cut b'-' rng).0 lo hi) _ _ e in
    let (y, second, e'') = bind_ok (cron_number (cut b'-' rng).1.0 lo hi) _ _ e' in
    cut-safe b'-' rng refl (cron_number-safe _ lo hi x first)
      (λ f. cron_number-safe _ lo hi y second)

cron_item-safe :
    (it : Bytes) (lo hi : ℕ) → cron_item it lo hi ≡ ok tt → all_bytes is_cron_byte it ≡ true
unfolding cron_item
cron_item-safe it lo hi e =
    cut-safe b'/' it refl (range_safe (cut b'/' it).0 (cut b'/' it).1.1 (step_ok _ _ _ e).1) (λ f.
      is_step-safe (cut b'/' it).1.0 lo hi
        ((step_ok (cut b'/' it).1.1 (is_step (cut b'/' it).1.0 lo hi) _ e).0 f))
  where
    step_ok :
        (b c : Bool) (d : Checked Nothing)
        → (if b && not c then err (bad_step (cut b'/' it).1.0) else d) ≡ ok tt
        → (b ≡ true → c ≡ true) × (d ≡ ok tt)
    step_ok b c d e = ground arith

    star_safe : (s : Bytes) → is_star s ≡ true → all_bytes is_cron_byte s ≡ true
    star_safe [] h = refl
    star_safe (c ∷ []) h = ground arith
    star_safe (c ∷ d ∷ s) h = ground arith

    number_then : Bytes → Bool → Checked Nothing
    number_then rng has_step =
        cron_number rng lo hi >>= λ n. if has_step then err step_needs_range else done

    range_safe :
        (rng : Bytes) (has_step : Bool)
        → (if is_star rng
            then ok tt
            else if has_byte b'-' rng
            then cron_range rng lo hi
            else cron_number rng lo hi >>= λ n. if has_step then err step_needs_range else ok tt)
          ≡ ok tt
        → all_bytes is_cron_byte rng ≡ true
    range_safe rng has_step e = elim (Bool-cases (is_star rng)) [
      | inl star ↦ star_safe rng star
      | inr star ↦ elim (Bool-cases (has_byte b'-' rng)) [
        | inl dash ↦ cron_range-safe rng lo hi (rw (star, dash) at e)
        | inr dash ↦
            let e' : number_then rng has_step ≡ done = rw (star, dash) at e in
            let (n, number, rest) = bind_ok (cron_number rng lo hi) _ _ e' in
            cron_number-safe rng lo hi n number
      ]
    ]

cron_items-safe :
    (items : List Bytes) (lo hi : ℕ) → cron_items items lo hi ≡ ok tt → are_cron items ≡ true
unfolding cron_items
cron_items-safe [] lo hi e = refl
cron_items-safe (it ∷ items) lo hi e =
    let (u, first, rest) = bind_ok (cron_item it lo hi) _ _ e in
    and_true _ _ (cron_item-safe it lo hi first) (cron_items-safe items lo hi rest)

parse_cron_field-safe :
    (s : Bytes) (lo hi : ℕ) (one : Bool)
    → parse_cron_field s lo hi ≡ ok one
    → all_bytes is_cron_byte s ≡ true
unfolding parse_cron_field
parse_cron_field-safe s lo hi one e =
    let (u, items, rest) = bind_ok (cron_items (split b',' s) lo hi) _ _ (few _ _ e) in
    split_if-safe s (cron_items-safe (split b',' s) lo hi items)
  where
    few :
        (b : Bool) (c : Checked Bool) → (if b then err too_many_items else c) ≡ ok one → c ≡ ok one
    few b c e = ground arith

-- every field of the five was parsed
are_cron-SinglesOf :
    (is : List CronField) (f : List Bytes) (single : List Bool)
    → length f ≡ length is
    → SinglesOf is f single
    → are_cron f ≡ true
are_cron-SinglesOf is [] single e p = refl
are_cron-SinglesOf [] (x ∷ f) single e p = ground arith
are_cron-SinglesOf (i ∷ is) (x ∷ f) [] e p = absurd p
are_cron-SinglesOf (i ∷ is) (x ∷ f) (s ∷ single) e (parsed, rest) =
    let same : length f ≡ length is = omega arith in
    and_true _ _ (parse_cron_field-safe x (field_min i) (field_max i) s parsed)
      (are_cron-SinglesOf is f single same rest)

-- a byte of the crontab's time fields
abbrev pub is_spec_byte : ℕ → Bool
is_spec_byte c = is_cron_byte c || c == b' '

spec_bytes : (s : Bytes) → all_bytes is_cron_byte s ≡ true → all_bytes is_spec_byte s ≡ true
spec_bytes [] h = refl
spec_bytes (c ∷ s) h = ground (arith, spec_bytes s)

spec_bytes-append :
    (s t : Bytes)
    → all_bytes is_spec_byte s ≡ true
    → all_bytes is_spec_byte t ≡ true
    → all_bytes is_spec_byte (s ++ t) ≡ true
spec_bytes-append [] t h k = k
spec_bytes-append (c ∷ s) t h k = ground (arith, spec_bytes-append s t)

join-safe : (ws : List Bytes) → are_cron ws ≡ true → all_bytes is_spec_byte (join ws) ≡ true
unfolding join
join-safe [] h = refl
join-safe (w ∷ []) h = spec_bytes w (true_and _ _ h).0
join-safe (w ∷ v ∷ ws) h =
    let (hw, rest) = true_and _ _ h in
    spec_bytes-append w (32 ∷ join (v ∷ ws)) (spec_bytes w hw) (join-safe (v ∷ ws) rest)

-- The text that goes into the crontab consists of digits, spaces and the bytes * , - / and + only: an
-- accepted expression cannot start another line or another command.
pub check_cron-safe :
    (spec : Bytes) (action : String) (r : Bytes)
    → check_cron spec action ≡ ok r
    → all_bytes is_spec_byte r ≡ true
unfolding check_cron
check_cron-safe spec action r e =
    let f = fields spec in
    let (five, (single, (checked, (first, (second, eq))))) =
      accepted_parts f (check_fields cron_fields f) action r e in
    subst (λ t. all_bytes is_spec_byte t ≡ true) (sym eq)
      (join-safe f (
        are_cron-SinglesOf cron_fields f single five
          (check_fields-SinglesOf cron_fields f single checked)))
