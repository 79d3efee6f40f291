-- ===== src/Cron/Single.antt =====
-- A field that is one fixed number holds that number alone.
use mini_router.Prelude.{
  ℕ, ◌-◌, ◌%◌, ◌≡◌, ◌≤◌, refl, Bool, true, false, not, ◌&&◌, ◌||◌, Option, none, some, List, [],
  ◌∷◌, if◌then◌else◌, ltb, leb, ◌==◌, length, arith, ap, ◌∙◌, subst,
}
use mini_router.Prelude.Bytes.{Bytes, has_byte, all_bytes, lacks-all_bytes}
use mini_router.Strings.{split, length-split_if_single, split_if-one, cut_lacks}
use mini_router.Cron.{
  Nothing, is_digit, digits_from, go_atoi, Checked, ok, err, ◌>>=◌, too_many_items, cron_number,
  cron_item, cron_items, parse_cron_field, is_star, item_holds, some_holds,
}

abbrev plain_number : Bytes → Option (Bool × ℕ)
plain_number s = some (false, digits_from 0 s)

-- a text of digits is its number
go_atoi_digits :
    (s : Bytes) → (length s == 0) ≡ false → all_bytes is_digit s ≡ true → go_atoi s ≡ plain_number s
unfolding go_atoi
go_atoi_digits [] n h = absurd_nil n
  where
    absurd_nil : true ≡ false → none ≡ plain_number []
    absurd_nil e = cc
go_atoi_digits (c ∷ s) n h = ground arith

cron_number_digits :
    (x : Bytes) (lo hi n : ℕ)
    → cron_number x lo hi ≡ ok n
    → ((length x == 0) ≡ false)
      × ((all_bytes is_digit x ≡ true) × ((n ≡ digits_from 0 x) × ((lo ≤ n) × (n ≤ hi))))
unfolding cron_number
cron_number_digits x lo hi n e = ground arith

-- what the test `single` says of the text
abbrev IsPlain : Bytes → Type 0
IsPlain s =
    (split b',' s ≡ s ∷ [])
    × ((has_byte b'*' s ≡ false) × ((has_byte b'-' s ≡ false) × (has_byte b'/' s ≡ false)))

-- the pieces of the test `single`
single_parts :
    (s : Bytes) (items : List Bytes) (c : Checked Nothing)
    → (if ltb 16 (length items)
        then err too_many_items
        else c >>= λ u.
            ok (length items == 1 && not (has_byte b'*' s || has_byte b'-' s || has_byte b'/' s)))
      ≡ ok true
    → (length items ≡ 1)
      × ((has_byte b'*' s ≡ false)
          × ((has_byte b'-' s ≡ false) × ((has_byte b'/' s ≡ false) × (c ≡ ok tt))))
single_parts s items (ok tt) e = ground arith
single_parts s items (err x) e = ground arith

cron_items_one :
    (it : Bytes) (lo hi : ℕ) → cron_items (it ∷ []) lo hi ≡ ok tt → cron_item it lo hi ≡ ok tt
unfolding cron_items
cron_items_one it lo hi e = ground arith

parse_cron_field-IsPlain :
    (s : Bytes) (lo hi : ℕ)
    → parse_cron_field s lo hi ≡ ok true
    → IsPlain s × (cron_item s lo hi ≡ ok tt)
unfolding parse_cron_field
parse_cron_field-IsPlain s lo hi e =
    let (one, (star, (dash, (slash, items)))) = single_parts s (split b',' s) _ e in
    let whole : split b',' s ≡ s ∷ [] =
      split_if-one (λ c. c == b',') s (length-split_if_single (λ c. c == b',') s one) in
    (
      (whole, (star, (dash, slash))),
      cron_items_one s lo hi (subst (λ l. cron_items l lo hi ≡ ok tt) whole items),
    )

is_star-lacks : (s : Bytes) → has_byte b'*' s ≡ false → is_star s ≡ false
is_star-lacks [] h = refl
is_star-lacks (c ∷ []) h = ground arith
is_star-lacks (c ∷ d ∷ s) h = refl

abbrev done : Checked Nothing
done = ok tt

number_of : (c : Checked ℕ) → (c >>= λ n. done) ≡ done → (n : ℕ) × (c ≡ ok n)
number_of (ok n) e = (n, refl)
number_of (err x) e = ground arith

-- an item without a step and a dash is a number
cron_item_plain :
    (s : Bytes) (lo hi : ℕ)
    → IsPlain s
    → cron_item s lo hi ≡ ok tt
    → (n : ℕ) × ((is_star s ≡ false) × (cron_number s lo hi ≡ ok n))
unfolding cron_item
cron_item_plain s lo hi (w, (star, (dash, slash))) e =
    let whole = cut_lacks b'/' s (lacks-all_bytes b'/' s slash) in
    let ns = is_star-lacks s star in
    let e' : (cron_number s lo hi >>= λ n. done) ≡ done = rw (whole, ns, dash) at e in
    let (n, h) = number_of (cron_number s lo hi) e' in (n, (ns, h))

-- the value that the item holds
item_holds_plain :
    (s : Bytes) (lo hi n v : ℕ)
    → IsPlain s
    → is_star s ≡ false
    → go_atoi s ≡ some (false, n)
    → item_holds lo hi s v ≡ (v == n)
unfolding item_holds go_atoi
item_holds_plain s lo hi n v (w, (star, (dash, slash))) ns a =
    let whole = cut_lacks b'/' s (lacks-all_bytes b'/' s slash) in
    let number = cut_lacks b'-' s (lacks-all_bytes b'-' s dash) in
    let cuts : item_holds lo hi s v ≡ (leb n v && leb v n && ((v - n) % 1 == 0)) =
      rw (whole, number, ns, a) refl in
    cuts ∙ exact_number
  where
    exact_number : leb n v && leb v n && ((v - n) % 1 == 0) ≡ (v == n)
    exact_number = ground arith

-- a field that is one number holds that number alone, which lies in the bounds of the field
pub some_holds_single :
    (s : Bytes) (lo hi : ℕ)
    → parse_cron_field s lo hi ≡ ok true
    → ((v : ℕ) → some_holds lo hi (split b',' s) v ≡ (v == digits_from 0 s))
      × ((lo ≤ digits_from 0 s) × (digits_from 0 s ≤ hi))
some_holds_single s lo hi p =
    let (plain, item) = parse_cron_field-IsPlain s lo hi p in
    let (n, (ns, number)) = cron_item_plain s lo hi plain item in
    let (nonempty, (digits, (same, (low, high)))) = cron_number_digits s lo hi n number in
    let a = go_atoi_digits s nonempty digits in
    (
      λ v.
          ap (λ l. some_holds lo hi l v) plain.0
          ∙ or_false (item_holds lo hi s v)
          ∙ item_holds_plain s lo hi (digits_from 0 s) v plain ns a,
      (omega arith, omega arith),
    )
  where
    or_false : (b : Bool) → b || false ≡ b
    or_false b = ground arith
