-- ===== src/Login/Throttle.antt =====
-- The attempts of one source that are let through, by what becomes of its record.
use mini_router.Prelude.{
  ℕ, zero, suc, ◌+◌, ◌≤◌, ◌≡◌, refl, ◌&&◌, Bool, true, false, List, [], ◌∷◌, if◌then◌else◌, arith,
  ◌⊎◌, inl, inr, Bool-cases,
}
use mini_router.Login.{LoginRec, Attempt, wait, allowed, attempt, is_idle}
use mini_router.Login.Sources.{kept}
use mini_router.Login.Attempts.{is_allowed, IsSound, Steps, attempt-Steps}

-- The changes that the shared file makes to the record of one source: its own attempts, of wrong
-- passwords, and those of the others, at which a record that has been idle for a day is forgotten. The
-- times of its attempts that are let through.
unfoldable pub through : LoginRec → List (Bool × ℕ) → List ℕ
through r [] = []
through r ((own, t) ∷ l) =
    let rest = through (kept t (if own then (attempt r t).0 else r)) l in
    if own && is_allowed (attempt r t).1 then t ∷ rest else rest

-- The clock does not go back.
abbrev pub IsMonotone {ℓ} : {A : Type ℓ} → ℕ → List (A × ℕ) → Type 0
IsMonotone t [] = Unit
IsMonotone t ((a, u) ∷ l) = (t ≤ u) × IsMonotone u l

-- the time at a position, if there is one, is 30 seconds later than `t`
abbrev pub IsFar : ℕ → ℕ → List ℕ → Type 0
IsFar n t [] = Unit
IsFar zero t (u ∷ l) = t + 30 ≤ u
IsFar (suc n) t (u ∷ l) = IsFar n t l

-- From each time to the fifth one after it are 30 seconds.
abbrev pub IsThrottled : List ℕ → Type 0
IsThrottled [] = Unit
IsThrottled (t ∷ l) = IsFar 4 t l × IsThrottled l

-- Since `t` the source was let through `k` times.
abbrev Recent : ℕ → ℕ → LoginRec → Type 0
Recent t k r = (t ≤ r.seen) × ((t + 30 ≤ r.until) ⊎ ((t + 30 ≤ r.seen) ⊎ (k ≤ r.fails)))

-- the same, or 30 seconds have passed
abbrev Since : ℕ → ℕ → ℕ → LoginRec → Type 0
Since t k now r = (t + 30 ≤ now) ⊎ Recent t k r

-- one more attempt since `t`
Recent-step :
    (t k now : ℕ) (r r' : LoginRec)
    → Recent t k r
    → IsSound r now
    → r.until ≤ now
    → r'.seen ≡ now
    → ((now + 30 ≤ r'.until) ⊎ ((r.seen + 900 ≤ now) ⊎ (r'.fails ≡ r.fails + 1)))
    → Recent t (suc k) r'
Recent-step t k now r r' (a, b) s up e c = (omega arith, by b c)
  where
    by :
        (t + 30 ≤ r.until) ⊎ ((t + 30 ≤ r.seen) ⊎ (k ≤ r.fails))
        → ((now + 30 ≤ r'.until) ⊎ ((r.seen + 900 ≤ now) ⊎ (r'.fails ≡ r.fails + 1)))
        → (t + 30 ≤ r'.until) ⊎ ((t + 30 ≤ r'.seen) ⊎ (suc k ≤ r'.fails))
    by (inl x) c = inr (inl (omega arith))
    by (inr (inl x)) c = inr (inl (omega arith))
    by (inr (inr x)) (inl y) = inl (omega arith)
    by (inr (inr x)) (inr (inl y)) = inr (inl (omega arith))
    by (inr (inr x)) (inr (inr y)) = inr (inr (omega arith))

-- the fifth attempt after `t` is 30 seconds later
Since-far :
    (t now : ℕ) (r : LoginRec) → Since t 5 now r → IsSound r now → r.until ≤ now → t + 30 ≤ now
Since-far t now r (inl x) s up = x
Since-far t now r (inr (a, inl x)) s up = omega arith
Since-far t now r (inr (a, inr (inl x))) s up = omega arith
Since-far t now r (inr (a, inr (inr x))) s up = absurd (omega arith)

Since-step :
    (t k now : ℕ) (r r' : LoginRec)
    → Since t k now r
    → IsSound r now
    → r.until ≤ now
    → r'.seen ≡ now
    → ((now + 30 ≤ r'.until) ⊎ ((r.seen + 900 ≤ now) ⊎ (r'.fails ≡ r.fails + 1)))
    → Since t (suc k) now r'
Since-step t k now r r' (inl x) s up e c = inl x
Since-step t k now r r' (inr x) s up e c = inr (Recent-step t k now r r' x s up e c)

Since-later : (t k now u : ℕ) (r : LoginRec) → now ≤ u → Since t k now r → Since t k u r
Since-later t k now u r le (inl x) = inl (omega arith)
Since-later t k now u r le (inr x) = inr x

-- a record that is forgotten is a day old
Since-kept : (t k now : ℕ) (r : LoginRec) → Since t k now r → Since t k now (kept now r)
Since-kept t k now r (inl x) = inl x
Since-kept t k now r (inr (a, x)) = elim (Bool-cases (is_idle now r)) [
  | inl e ↦ inl (ground arith)
  | inr e ↦ inr (rw e (a, x))
]

IsSound-kept : (r : LoginRec) (now : ℕ) → IsSound r now → IsSound (kept now r) now
IsSound-kept r now s = elim (Bool-cases (is_idle now r)) [
  | inl e ↦ rw e (omega arith, omega arith)
  | inr e ↦ rw e s
]

IsFar-next :
    (t k n u : ℕ) (r r' : LoginRec) (l : List ℕ)
    → k + n ≡ 5
    → Since t k u r
    → Since t (suc k) u r'
    → IsSound r u
    → r.until ≤ u
    → ((m : ℕ) → suc k + m ≡ 5 → Since t (suc k) u r' → IsFar m t l)
    → IsFar n t (u ∷ l)
IsFar-next t k zero u r r' l e a a' s up ih =
    let five : k ≡ 5 = omega arith in Since-far t u r (rw five at a) s up
IsFar-next t k (suc m) u r r' l e a a' s up ih = ih m (omega arith) a'

-- the attempt at `u`, and the attempts after it
IsFar-step :
    (t k n u : ℕ) (r r' : LoginRec) (b : Bool) (l : List ℕ)
    → k + n ≡ 5
    → Since t k u r
    → IsSound r u
    → Steps r u (r', if b then allowed 0 0 else wait 0)
    → ((k m : ℕ) → k + m ≡ 5 → Since t k u r' → IsSound r' u → IsFar m t l)
    → IsFar n t (if b then u ∷ l else l)
IsFar-step t k n u r r' true l e a s (inl (p, up, s', e', c, d)) ih =
    IsFar-next t k n u r r' l e a (Since-step t k u r r' a s up e' c) s up
      (λ m e a. ih (suc k) m e a s')
IsFar-step t k n u r r' true l e a s (inr (p, e')) ih = cc
IsFar-step t k n u r r' false l e a s (inl (p, up, s', e', c, d)) ih = cc
IsFar-step t k n u r r' false l e a s (inr (p, e')) ih = ih k n e (rw e' a) (rw e' s)

-- Steps sees whether the attempt is let through, and nothing else of the answer
Steps-allowed :
    (r r' : LoginRec) (now : ℕ) (a : Attempt)
    → Steps r now (r', a)
    → Steps r now (r', if is_allowed a then allowed 0 0 else wait 0)
Steps-allowed r r' now (wait n) h = h
Steps-allowed r r' now (allowed f l) h = h

IsFar-through :
    (t k n now : ℕ) (r : LoginRec) (l : List (Bool × ℕ))
    → k + n ≡ 5
    → Since t k now r
    → IsSound r now
    → IsMonotone now l
    → IsFar n t (through r l)
unfolding through
IsFar-through t k n now r [] e a s m = tt
IsFar-through t k n now r ((false, u) ∷ l) e a s m =
    let sound : IsSound r u = (s.0, omega arith) in
    IsFar-through t k n u (kept u r) l e (Since-kept t k u r (Since-later t k now u r m.0 a))
      (IsSound-kept r u sound) m.1
IsFar-through t k n now r ((true, u) ∷ l) e a s m =
    let sound : IsSound r u = (s.0, omega arith) in
    let r' = (attempt r u).0 in
    IsFar-step t k n u r r' (is_allowed (attempt r u).1) _ e (Since-later t k now u r m.0 a) sound
      (Steps-allowed r _ u _ (attempt-Steps r u sound))
      (λ k n e a s.
        IsFar-through t k n u (kept u r') l e (Since-kept t k u r' a) (IsSound-kept r' u s) m.1)

first_step :
    (u : ℕ) (r r' : LoginRec) (b : Bool) (l : List (Bool × ℕ)) (ts : List ℕ)
    → IsSound r u
    → IsMonotone u l
    → ts ≡ through (kept u r') l
    → Steps r u (r', if b then allowed 0 0 else wait 0)
    → (IsSound r' u → IsThrottled ts)
    → IsThrottled (if b then u ∷ ts else ts)
first_step u r r' true l ts s m e (inl (p, up, s', e', c, d)) ih = (
  rw e (
      IsFar-through u 1 4 u (kept u r') l refl (Since-kept u 1 u r' (inr (omega arith, since d)))
        (IsSound-kept r' u s') m),
  ih s',
)
  where
    since :
        (u + 30 ≤ r'.until) ⊎ (1 ≤ r'.fails)
        → (u + 30 ≤ r'.until) ⊎ ((u + 30 ≤ r'.seen) ⊎ (1 ≤ r'.fails))
    since (inl x) = inl x
    since (inr x) = inr (inr x)
first_step u r r' true l ts s m e (inr (p, e')) ih = cc
first_step u r r' false l ts s m e (inl (p, up, s', e', c, d)) ih = cc
first_step u r r' false l ts s m e (inr (p, e')) ih = ih (rw e' s)

pub through-IsThrottled :
    (now : ℕ) (r : LoginRec) (l : List (Bool × ℕ))
    → IsSound r now
    → IsMonotone now l
    → IsThrottled (through r l)
unfolding through
through-IsThrottled now r [] s m = tt
through-IsThrottled now r ((false, u) ∷ l) s m =
    let sound : IsSound r u = (s.0, omega arith) in
    through-IsThrottled u (kept u r) l (IsSound-kept r u sound) m.1
through-IsThrottled now r ((true, u) ∷ l) s m =
    let sound : IsSound r u = (s.0, omega arith) in
    let r' = (attempt r u).0 in
    first_step u r r' (is_allowed (attempt r u).1) l _ sound m.1 refl
      (Steps-allowed r _ u _ (attempt-Steps r u sound))
      (λ s. through-IsThrottled u (kept u r') l (IsSound-kept r' u s) m.1)
