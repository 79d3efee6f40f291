-- ===== src/Login/Lock.antt =====
-- How long a lock lasts.
use native.Mathlib.Nat.{pow-suc}
use mini_router.Prelude.{
  ℕ, zero, suc, ◌+◌, ◌-◌, ◌*◌, ◌^◌, ◌%◌, ◌≤◌, ◌<◌, ◌≡◌, refl, Bool, true, min, arith, ltb, ◌==◌,
  false, if◌then◌else◌, Bool-cases, inl, inr, ◌∙◌, sym,
}
use mini_router.Login.{lock_seconds, second}

pow_pos : (n : ℕ) → 1 ≤ 2 ^ n
pow_pos zero = omega arith
pow_pos (suc n) = omega (arith, pow_pos n)

two_pow_32 : (j : ℕ) → 2 ^ (j + 32) ≡ 4294967296 * 2 ^ j
two_pow_32 zero = refl
two_pow_32 (suc j) =
    let e : suc j + 32 ≡ suc (j + 32) = omega arith in
    rw (e, pow-suc 2 (j + 32), pow-suc 2 j) (omega (arith, two_pow_32 j))

-- 30 seconds, doubled for each lock in a row, and an hour at most
abbrev pub doubled : ℕ → ℕ
doubled locks = min (30 * 2 ^ locks) 3600

-- two functions give the same from 0 up to a number
same_upto : (ℕ → ℕ) → (ℕ → ℕ) → ℕ → Bool
same_upto f g zero = true
same_upto f g (suc n) = let rest = same_upto f g n in if f n == g n then rest else false

same_upto_at : (f g : ℕ → ℕ) (n k : ℕ) → k < n → same_upto f g n ≡ true → f k ≡ g k
unfolding same_upto
same_upto_at f g zero k lt e = absurd (omega arith)
same_upto_at f g (suc n) k lt e = elim (Bool-cases (k == n)) [
  | inl last ↦ let same : k ≡ n = ground arith in rw same (ground arith)
  | inr before ↦
      let rest : same_upto f g n ≡ true = ground arith in same_upto_at f g n k (ground arith) rest
]

table : same_upto lock_seconds doubled 32 ≡ true
unfolding same_upto lock_seconds
table = refl

overflows :
    (x : ℕ) → (30 * second * (4294967296 * x)) % 2 ^ 64 ≡ 4398046511104 * ((29296875 * x) % 4194304)
overflows x = omega arith

capped : (j : ℕ) → lock_seconds (j + 32) ≡ 3600
unfolding lock_seconds
capped j = rw (two_pow_32 j, overflows (2 ^ j)) (ground arith)

doubled_32 : (j : ℕ) → doubled (j + 32) ≡ 3600
doubled_32 j = rw (two_pow_32 j) (omega (arith, pow_pos j))

-- However many locks came before, also where the shift of the 64-bit duration overflows, a lock
-- lasts 30 seconds times 2 for each of them, and an hour at most.
pub lock_seconds-doubled : (locks : ℕ) → lock_seconds locks ≡ min (30 * 2 ^ locks) 3600
lock_seconds-doubled locks = elim (Bool-cases (ltb locks 32)) [
  | inl e ↦ same_upto_at lock_seconds doubled 32 locks (ground arith) table
  | inr e ↦
      let up : locks ≡ (locks - 32) + 32 = ground arith in
      rw up (capped (locks - 32) ∙ sym (doubled_32 (locks - 32)))
]

pub lock_seconds_bounds : (locks : ℕ) → (30 ≤ lock_seconds locks) × (lock_seconds locks ≤ 3600)
lock_seconds_bounds locks = omega (arith, lock_seconds-doubled locks, pow_pos locks)
