-- ===== src/Dial/Clock.antt =====
-- dialRestoreTime reads HH:MM, and nothing else.
use mini_router.Prelude.{
  ℕ, ◌+◌, ◌-◌, ◌*◌, ◌/◌, ◌%◌, ◌≡◌, ◌≤◌, ◌<◌, ◌↔◌, refl, Bool, true, false, ◌&&◌, [], ◌∷◌, ltb, ◌==◌,
  arith, Bool-cases, inl, inr, ap, subst, sym, ◌∙◌,
}
use mini_router.Prelude.Bytes.{Bytes}
use mini_router.Cron.{is_digit, digits_from}
use mini_router.Dial.{dial_restore_time}

-- a time of the day as HH:MM
abbrev pub clock_text : ℕ → ℕ → Bytes
clock_text h m = (b'0' + h / 10) ∷ (b'0' + h % 10) ∷ b':' ∷ (b'0' + m / 10) ∷ (b'0' + m % 10) ∷ []

abbrev number_two : ℕ → ℕ → ℕ
number_two a b = (a - b'0') * 10 + (b - b'0')

digits_two : (a b : ℕ) → digits_from 0 (a ∷ b ∷ []) ≡ number_two a b
unfolding digits_from
digits_two a b = omega arith

abbrev reading : ℕ → ℕ → (ℕ × ℕ) × Bool
reading h m = ((h, m), ltb h 24 && ltb m 60)

abbrev unreadable : (ℕ × ℕ) × Bool
unreadable = ((0, 0), false)

unread : {h m : ℕ} → unreadable ≡ ((h, m), true) → ⊥
unread e = no_true (ap (λ z. z.1) e)
  where
    no_true : false ≡ true → ⊥
    no_true e = cc

abbrev all_digits : ℕ → ℕ → ℕ → ℕ → Bool
all_digits a b d e = is_digit a && is_digit b && is_digit d && is_digit e

reads_five :
    (a b c d e : ℕ)
    → all_digits a b d e ≡ true
    → (c == b':') ≡ true
    → dial_restore_time (a ∷ b ∷ c ∷ d ∷ e ∷ []) ≡ reading (number_two a b) (number_two d e)
unfolding dial_restore_time
reads_five a b c d e digits sep =
    rw (dial_restore_time, sep, digits, digits_two a b, digits_two d e) refl

text-reads : (h m : ℕ) → h < 24 → m < 60 → dial_restore_time (clock_text h m) ≡ ((h, m), true)
text-reads h m lh lm =
    reads_five (b'0' + h / 10) (b'0' + h % 10) b':' (b'0' + m / 10) (b'0' + m % 10) digits refl
    ∙ ap (λ x. reading x (number_two (b'0' + m / 10) (b'0' + m % 10))) (same h)
    ∙ ap (reading h) (same m)
    ∙ valid
  where
    digits : all_digits (b'0' + h / 10) (b'0' + h % 10) (b'0' + m / 10) (b'0' + m % 10) ≡ true
    digits = ground arith

    same : (n : ℕ) → number_two (b'0' + n / 10) (b'0' + n % 10) ≡ n
    same n = omega arith

    valid : reading h m ≡ ((h, m), true)
    valid = ground arith

text_same :
    (a b c d e h m : ℕ)
    → a ≡ b'0' + h / 10
    → b ≡ b'0' + h % 10
    → c ≡ b':'
    → d ≡ b'0' + m / 10
    → e ≡ b'0' + m % 10
    → a ∷ b ∷ c ∷ d ∷ e ∷ [] ≡ clock_text h m
text_same a b c d e h m ea eb ec ed ee = cc

two_digits :
    (a b n : ℕ)
    → is_digit a && is_digit b ≡ true
    → number_two a b ≡ n
    → (a ≡ b'0' + n / 10) × (b ≡ b'0' + n % 10)
two_digits a b n digits e =
    let high : a - b'0' ≤ 9 = ground arith in
    let low : b - b'0' ≤ 9 = ground arith in
    let above : b'0' ≤ a = ground arith in
    let above' : b'0' ≤ b = ground arith in (omega arith, omega arith)

read_parts : (x y h m : ℕ) → reading x y ≡ ((h, m), true) → (h < 24) × (m < 60) × (x ≡ h) × (y ≡ m)
read_parts x y h m e =
    let eh : x ≡ h = ap (λ z. z.0.0) e in
    let em : y ≡ m = ap (λ z. z.0.1) e in
    let valid : ltb x 24 && ltb y 60 ≡ true = ap (λ z. z.1) e in
    (ground arith, ground arith, eh, em)

reads-text :
    (s : Bytes) (h m : ℕ)
    → dial_restore_time s ≡ ((h, m), true)
    → (h < 24) × (m < 60) × (s ≡ clock_text h m)
unfolding dial_restore_time
reads-text [] h m e = absurd (unread e)
reads-text (a ∷ []) h m e = absurd (unread e)
reads-text (a ∷ b ∷ []) h m e = absurd (unread e)
reads-text (a ∷ b ∷ c ∷ []) h m e = absurd (unread e)
reads-text (a ∷ b ∷ c ∷ d ∷ []) h m e = absurd (unread e)
reads-text (a ∷ b ∷ c ∷ d ∷ f ∷ []) h m e = elim (Bool-cases (c == b':')) [
  | inl sep ↦ elim (Bool-cases (all_digits a b d f)) [
    | inl digits ↦
        let (lh, lm, eh, em) =
          read_parts (number_two a b) (number_two d f) h m
            (sym (reads_five a b c d f digits sep) ∙ e) in
        let (ea, eb) = two_digits a b h (ground arith) eh in
        let (ed, ef) = two_digits d f m (ground arith) em in
        (lh, lm, text_same a b c d f h m ea eb (ground arith) ed ef)
    | inr no_digits ↦ absurd (unread (rw (dial_restore_time, sep, no_digits) at e))
  ]
  | inr no_sep ↦ absurd (unread (rw (dial_restore_time, no_sep) at e))
]
reads-text (a ∷ b ∷ c ∷ d ∷ f ∷ g ∷ s) h m e = absurd (unread e)

-- dial_restore is read as the hour h and the minute m exactly when it is HH:MM of that time of the day.
pub dial_restore_time_iff :
    (s : Bytes) (h m : ℕ)
    → (dial_restore_time s ≡ ((h, m), true)) ↔ ((h < 24) × (m < 60) × (s ≡ clock_text h m))
dial_restore_time_iff s h m = (
  reads-text s h m,
  λ (lh, lm, e). subst (λ t. dial_restore_time t ≡ ((h, m), true)) (sym e) (text-reads h m lh lm),
)
