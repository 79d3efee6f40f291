-- ===== src/Dial/Waiting.antt =====
-- dialWaitUp returns at its first look at or after the deadline, or before, and says whether the WANs
-- were ready by then.
use mini_router.Prelude.{
  ℕ, zero, suc, ◌+◌, ◌-◌, ◌≡◌, ◌≤◌, ◌<◌, refl, Bool, true, false, String, some, List, [], ◌∷◌, ltb,
  max, arith, Bool-cases, inl, inr, ◌⊎◌, subst, IsIn,
}
use mini_router.Dial.{Links, dial_ready, all_ready, wait_up}

-- each WAN has been ready since `since` and since it was started
abbrev pub AllReady : Links → List String → ℕ → Type 0
AllReady o names since =
    (n : String) → IsIn n names → dial_ready o n (max since (o.started_at n)) ≡ true

-- some WAN has not
abbrev pub SomeWaiting : Links → List String → ℕ → Type 0
SomeWaiting o names since =
    (n : String) × IsIn n names × (dial_ready o n (max since (o.started_at n)) ≡ false)

AllReady-all_ready :
    (o : Links) (names : List String) (since : ℕ)
    → all_ready o names since ≡ true
    → AllReady o names since
AllReady-all_ready o [] since e n h = absurd h
AllReady-all_ready o (m ∷ names) since e n (inl k) =
    subst (λ x. dial_ready o x (max since (o.started_at x)) ≡ true) k (ground arith)
AllReady-all_ready o (m ∷ names) since e n (inr k) =
    AllReady-all_ready o names since (ground arith) n k

SomeWaiting-all_ready :
    (o : Links) (names : List String) (since : ℕ)
    → all_ready o names since ≡ false
    → SomeWaiting o names since
SomeWaiting-all_ready o [] since e = cc
SomeWaiting-all_ready o (m ∷ names) since e =
    elim (Bool-cases (dial_ready o m (max since (o.started_at m)))) [
      | inl good ↦
          let (n, k, waiting) = SomeWaiting-all_ready o names since (ground arith) in
          (n, inr k, waiting)
      | inr bad ↦ (m, inl refl, bad)
    ]

module _ (clock : ℕ → ℕ) (links : ℕ → Links) (names : List String) (since deadline : ℕ) where
  -- before the k-th look the WANs were not ready and the deadline had not come
  abbrev pub WaitedTo : ℕ → Type 0
  WaitedTo k = (i : ℕ) → i < k → SomeWaiting (links i) names since × (clock i < deadline)

  -- the look that ended the wait
  abbrev pub EndedAt : ℕ → Bool → Type 0
  EndedAt k true = WaitedTo k × AllReady (links k) names since
  EndedAt k false = WaitedTo k × SomeWaiting (links k) names since × (deadline ≤ clock k)

  waited_on :
      (k : ℕ)
      → WaitedTo k
      → all_ready (links k) names since ≡ false
      → clock k < deadline
      → WaitedTo (k + 1)
  waited_on k w unready before i lt = elim (last_or k i lt) [
    | inl e ↦
        subst (λ j. SomeWaiting (links j) names since × (clock j < deadline)) e
          (SomeWaiting-all_ready (links k) names since unready, before)
    | inr l ↦ w i l
  ]
    where
      last_or : (k i : ℕ) → i < k + 1 → (k ≡ i) ⊎ (i < k)
      last_or k i lt = omega arith

  wait_up_ends :
      ((k : ℕ) → clock k < clock (k + 1))
      → (fuel k : ℕ) → deadline ≤ clock k + fuel
      → WaitedTo k
      → (j : ℕ) × (ready : Bool) × (wait_up clock links names since deadline (suc fuel) k
          ≡ some ready)
        × EndedAt j ready
  unfolding wait_up
  wait_up_ends ticks zero k enough w = elim (Bool-cases (all_ready (links k) names since)) [
    | inl good ↦
        (k, true, rw (wait_up, good) refl, (w, AllReady-all_ready (links k) names since good))
    | inr bad ↦
        let over : ltb (clock k) deadline ≡ false = ground arith in
        (
          k,
          false,
          rw (wait_up, bad, over) refl,
          (w, SomeWaiting-all_ready (links k) names since bad, omega arith),
        )
  ]
  wait_up_ends ticks (suc fuel) k enough w = elim (Bool-cases (all_ready (links k) names since)) [
    | inl good ↦
        (k, true, rw (wait_up, good) refl, (w, AllReady-all_ready (links k) names since good))
    | inr bad ↦ elim (Bool-cases (ltb (clock k) deadline)) [
      | inl early ↦
          let before : clock k < deadline = ground arith in
          let later : deadline ≤ clock (k + 1) + fuel = omega (arith, ticks k) in
          let (j, ready, e, ended) =
            wait_up_ends ticks fuel (k + 1) later (waited_on k w bad before) in
          (j, ready, rw (wait_up, bad, early) e, ended)
      | inr over ↦ (
        k,
        false,
        rw (wait_up, bad, over) refl,
        (w, SomeWaiting-all_ready (links k) names since bad, ground arith),
      )
    ]
  ]

-- When every look is later than the one before, the wait ends: one look for every second that is left
-- and one more are enough. The answer is true at the first look at which every WAN is ready, and
-- false at the first look at or after the deadline, when at each look some WAN was not ready.
pub wait_up-EndedAt :
    (clock : ℕ → ℕ) (links : ℕ → Links) (names : List String) (since deadline : ℕ)
    → ((k : ℕ) → clock k < clock (k + 1))
    → (j : ℕ) × (ready : Bool) × (wait_up clock links names since deadline
          (suc (deadline - clock 0))
          0
        ≡ some ready)
      × EndedAt clock links names since deadline j ready
wait_up-EndedAt clock links names since deadline ticks =
    wait_up_ends clock links names since deadline ticks (deadline - clock 0) 0 (omega arith)
      (λ i lt. absurd (omega arith))
