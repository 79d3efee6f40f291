-- ===== src/Login/Attempts.antt =====
-- What an attempt does to the record of its source.
use mini_router.Prelude.{
  ℕ, ◌+◌, ◌≤◌, ◌≡◌, refl, Bool, true, false, if◌then◌else◌, ltb, leb, arith, ◌⊎◌, inl, inr,
  Bool-cases,
}
use mini_router.Login.{LoginRec, Attempt, wait, allowed, forget, count, attempt, lock_seconds}
use mini_router.Login.Lock.{lock_seconds_bounds}

abbrev pub is_allowed : Attempt → Bool
is_allowed (wait n) = false
is_allowed (allowed f l) = true

-- a record between two attempts
abbrev pub IsSound : LoginRec → ℕ → Type 0
IsSound r now = (r.fails ≤ 4) × (r.seen ≤ now)

-- What an attempt does: it is let through and counted, or the record stays.
abbrev pub Steps : LoginRec → ℕ → LoginRec × Attempt → Type 0
Steps r now (r', a) =
    ((is_allowed a ≡ true)
      × (r.until ≤ now)
      × IsSound r' now
      × (r'.seen ≡ now)
      × ((now + 30 ≤ r'.until) ⊎ ((r.seen + 900 ≤ now) ⊎ (r'.fails ≡ r.fails + 1)))
      × ((now + 30 ≤ r'.until) ⊎ (1 ≤ r'.fails)))
    ⊎ ((is_allowed a ≡ false) × (r' ≡ r))

count-Steps :
    (r : LoginRec) (now : ℕ)
    → r.until ≤ now
    → IsSound r now
    → Steps r now (count (forget r now) now)
unfolding count forget
count-Steps r now up s = by_count (leb 5 (fails + 1)) refl
  where
    fails : ℕ
    fails = if ltb (r.seen + 900) now then 0 else r.fails

    locks : ℕ
    locks = (forget r now).locks

    by_gap :
        (b : Bool)
        → ltb (r.seen + 900) now ≡ b
        → (r.seen + 900 ≤ now) ⊎ ((if b then 0 else r.fails) + 1 ≡ r.fails + 1)
    by_gap true e = inl (ground arith)
    by_gap false e = inr refl

    by_count :
        (b : Bool)
        → leb 5 (fails + 1) ≡ b
        → Steps r now (
            if b
            then (
              record { fails = 0; until = now + lock_seconds locks; locks = locks + 1; seen = now },
              allowed (fails + 1) (lock_seconds locks),
            )
            else (record (forget r now) { fails = fails + 1; seen = now }, allowed (fails + 1) 0))
    by_count true e =
        let long = lock_seconds_bounds locks in
        inl (refl, up, (omega arith, omega arith), refl, inl (omega arith), inl (omega arith))
    by_count false e = inl (
      refl,
      up,
      (ground arith, omega arith),
      refl,
      inr (by_gap (ltb (r.seen + 900) now) refl),
      inr (omega arith),
    )

pub attempt-Steps : (r : LoginRec) (now : ℕ) → IsSound r now → Steps r now (attempt r now)
unfolding attempt
attempt-Steps r now s = elim (Bool-cases (ltb now r.until)) [
  | inl e ↦ rw e (inr (refl, refl))
  | inr e ↦ rw e (count-Steps r now (ground arith) s)
]
