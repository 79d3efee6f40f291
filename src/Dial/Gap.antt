-- ===== src/Dial/Gap.antt =====
-- How often the restore redials a WAN.
use text.Mathlib.Text.{◌==◌ as str_eq}
use mini_router.Prelude.{
  ℕ, ◌+◌, ◌-◌, ◌≡◌, ◌≤◌, refl, Bool, true, false, not, ◌&&◌, ◌||◌, String, Option, none, some, List,
  [], ◌∷◌, if◌then◌else◌, leb, arith, eq_iff, Bool-cases, inl, inr, ap, sym, subst,
}
use mini_router.Dial.{
  MultiWan, has_name, is_nil, Restores, restored_at, dial_due, record_all, Redial, Redialling,
  redial_all, dial_deadline, RestoreResult, redial_due, dial_restore_on, dial_restore_with, stopped,
  disabled, already_running, order_ok,
}

-- when the WAN was first redialled, with success or without
abbrev pub first_start : String → List Redial → Option ℕ
first_start n [] = none
first_start n (r ∷ l) = let rest = first_start n l in if str_eq r.name n then some r.start else rest

-- a WAN that is due is redialled at `time` or later, and another one is not
abbrev IsStarted : Bool → ℕ → Option ℕ → Type 0
IsStarted has time none = has ≡ false
IsStarted has time (some s) = (has ≡ true) × (time ≤ s)

IsStarted-later :
    (has : Bool) (time next : ℕ) (x : Option ℕ)
    → time ≤ next
    → IsStarted has next x
    → IsStarted has time x
IsStarted-later has time next none le h = h
IsStarted-later has time next (some s) le (h, l) = (h, omega arith)

first_start-redial_all :
    (m : MultiWan) (o : Redialling) (n : String) (time : ℕ) (due : List String)
    → IsStarted (has_name n due) time (first_start n (redial_all m o time due))
unfolding redial_all
first_start-redial_all m o n time [] = refl
first_start-redial_all m o n time (k ∷ due) = elim (Bool-cases (str_eq k n)) [
  | inl e ↦ rw e (refl, omega arith)
  | inr e ↦
      let back = time + o.restart_takes k in
      let next =
        if o.restart k then back + o.wait_takes k time (dial_deadline m.dial_wait back) else back in
      rw e (
        IsStarted-later (has_name n due) time next (first_start n (redial_all m o next due))
          (ground arith) (first_start-redial_all m o n next due))
]

restored_at-record :
    (n m : String) (time : ℕ) (st : Restores)
    → restored_at n ((m, time) ∷ st) ≡ (if str_eq m n then time else restored_at n st)
unfolding restored_at
restored_at-record n m time st = refl

record_all-Recorded :
    (n : String) (due : List String) (time : ℕ) (st : Restores)
    → restored_at n (record_all due time st) ≡ (if has_name n due then time else restored_at n st)
record_all-Recorded n [] time st = refl
record_all-Recorded n (m ∷ due) time st =
    ground (arith, record_all-Recorded n due time ((m, time) ∷ st), restored_at-record n m time st)

due_first :
    (b has : Bool) (before after first time last : ℕ)
    → after ≡ (if b then time else before)
    → (has ≡ true → after + 600 ≤ time)
    → last ≡ (if has then time else after)
    → (b ≡ true → first ≡ before)
    → leb 600 (time - first) ≡ true
    → (b || has ≡ true → before + 600 ≤ time) × (last ≡ (if b || has then time else before))
due_first b has before after first time last e apart f same due = (ground arith, ground arith)

dial_due-Recorded :
    (n : String) (late : List String) (st : Restores) (time : ℕ)
    → (has_name n (dial_due late st time).0 ≡ true → restored_at n st + 600 ≤ time)
      × (restored_at n (dial_due late st time).1
          ≡ (if has_name n (dial_due late st time).0 then time else restored_at n st))
unfolding dial_due
dial_due-Recorded n [] st time = (λ e. absurd (no_true e), refl)
  where
    no_true : false ≡ true → ⊥
    no_true e = cc
dial_due-Recorded n (m ∷ late) st time = elim (Bool-cases (leb 600 (time - restored_at m st))) [
  | inl e ↦
      let (apart, last) = dial_due-Recorded n late ((m, time) ∷ st) time in
      rw (dial_due, e)
        (due_first (str_eq m n) (has_name n (dial_due late ((m, time) ∷ st) time).0)
          (restored_at n st) (restored_at n ((m, time) ∷ st)) (restored_at m st) time
          (restored_at n (dial_due late ((m, time) ∷ st) time).1) (restored_at-record n m time st)
          apart last (λ b. ap (λ k. restored_at k st) ((eq_iff m n).0 b)) e)
  | inr e ↦ rw (dial_due, e) (dial_due-Recorded n late st time)
]

-- what a call does to the WAN, by when it was first redialled
abbrev Effect : Bool → Bool → ℕ → ℕ → ℕ → Option ℕ → Type 0
Effect force recorded time before after none = after ≡ before
Effect force recorded time before after (some s) =
    (force ≡ false → before + 600 ≤ time)
    × (time ≤ s)
    × (after ≡ (if recorded then time else before))

Effect-of :
    (force has : Bool) (time before after : ℕ) (x : Option ℕ)
    → IsStarted has time x
    → (has ≡ true → force ≡ false → before + 600 ≤ time)
    → after ≡ (if has then time else before)
    → (recorded : Bool) → Effect force recorded time before (if recorded then after else before) x
Effect-of force has time before after none h apart e true = rw h at e
Effect-of force has time before after none h apart e false = refl
Effect-of force has time before after (some s) (h, le) apart e true = (apart h, le, rw h at e)
Effect-of force has time before after (some s) (h, le) apart e false = (apart h, le, refl)

restored_at-if :
    (n : String) (b : Bool) (st' st : Restores)
    → restored_at n (if b then st' else st) ≡ (if b then restored_at n st' else restored_at n st)
restored_at-if n true st' st = refl
restored_at-if n false st' st = refl

-- the decision of a call, which redials what is due
Decided : String → Bool → ℕ → Restores → List String × Restores → Type 0
Decided n force time st (due, st') =
    (has_name n due ≡ true → force ≡ false → restored_at n st + 600 ≤ time)
    × (restored_at n st' ≡ (if has_name n due then time else restored_at n st))

abbrev EffectOf : String → Bool → Bool → ℕ → Restores → RestoreResult × Restores → Type 0
EffectOf n force recorded time st (r, st') =
    Effect force recorded time (restored_at n st) (restored_at n st') (first_start n r.events)

redial_due-EffectOf :
    (n : String) (m : MultiWan) (force recorded : Bool) (st : Restores) (time : ℕ) (o : Redialling)
    (d : List String × Restores)
    → Decided n force time st d
    → EffectOf n force recorded time st (redial_due m recorded st time o d)
unfolding redial_due Decided
redial_due-EffectOf n m force recorded st time o ([], st') h = refl
redial_due-EffectOf n m force recorded st time o (k ∷ due, st') (apart, last) =
    let x = first_start n (redial_all m o time (k ∷ due)) in
    subst (λ after. Effect force recorded time (restored_at n st) after x)
      (sym (restored_at-if n recorded st' st))
      (Effect-of force (has_name n (k ∷ due)) time (restored_at n st) (restored_at n st') x
        (first_start-redial_all m o n time (k ∷ due)) apart last recorded)

dial_restore_with-EffectOf :
    (n : String) (m : MultiWan) (force free recorded : Bool) (late : List String) (st : Restores)
    (time : ℕ) (o : Redialling)
    → EffectOf n force recorded time st (dial_restore_with m force free recorded late st time o)
unfolding dial_restore_with Decided
dial_restore_with-EffectOf n m force free recorded late st time o =
    by_tests (not force && not (dial_restore_on m)) (not free) (is_nil late) _
      (redial_due-EffectOf n m force recorded st time o _ (decided force))
  where
    decided :
        (force : Bool)
        → Decided n force time st
            (if force then (late, record_all late time st) else dial_due late st time)
    decided true = (λ h e. cc, record_all-Recorded n late time st)
    decided false = let (apart, last) = dial_due-Recorded n late st time in (λ h e. apart h, last)

    by_tests :
        (off busy fine : Bool) (r : RestoreResult × Restores)
        → EffectOf n force recorded time st r
        → EffectOf n force recorded time st (
            if off
            then (stopped disabled, st)
            else if busy
            then (stopped already_running, st)
            else if fine
            then (stopped order_ok, st)
            else r)
    by_tests true busy fine r h = refl
    by_tests false true fine r h = refl
    by_tests false false true r h = refl
    by_tests false false false r h = h

-- a call of dialRestoreWithOptions, with what it finds outside
pub record Restoring : Type 0 where
  pub force : Bool
  pub free : Bool
  pub recorded : Bool
  pub late : List String
  pub time : ℕ
  pub outside : Redialling

-- a call that redialled the WAN: when it read the clock, and when the redial started
pub record Redialled : Type 0 where
  pub force : Bool
  pub recorded : Bool
  pub decided : ℕ
  pub started : ℕ

abbrev pub redials_of : String → MultiWan → Restores → List Restoring → List Redialled
redials_of n m st [] = []
redials_of n m st (c ∷ calls) =
    let (r, st') = dial_restore_with m c.force c.free c.recorded c.late st c.time c.outside in
    let rest = redials_of n m st' calls in
    elim (first_start n r.events) [
      | none ↦ rest
      | some s ↦
          record { force = c.force; recorded = c.recorded; decided = c.time; started = s } ∷ rest
    ]

-- a redial that was not forced was decided ten minutes or more after the last one on record was
-- decided, and none starts before it was decided
abbrev pub IsGapped : ℕ → List Redialled → Type 0
IsGapped before [] = Unit
IsGapped before (r ∷ l) =
    (r.force ≡ false → before + 600 ≤ r.decided)
    × (r.decided ≤ r.started)
    × IsGapped (if r.recorded then r.decided else before) l

IsGapped-by :
    (force recorded : Bool) (time before after : ℕ) (x : Option ℕ) (rest : List Redialled)
    → Effect force recorded time before after x
    → IsGapped after rest
    → IsGapped before (elim x [
      | none ↦ rest
      | some s ↦ record { force = force; recorded = recorded; decided = time; started = s } ∷ rest
    ])
IsGapped-by force recorded time before after none rest e h = subst (λ t. IsGapped t rest) e h
IsGapped-by force recorded time before after (some s) rest (apart, le, e) h =
    (apart, le, subst (λ t. IsGapped t rest) e h)

-- Through any calls, with any links, times and outcomes: a redial that is not forced is decided, and so
-- started, ten minutes or more after the call was made that last redialled the WAN and wrote its state
-- file, forced or not. A redial may start later than its call, by the redials before it in the call.
pub redials_of-IsGapped :
    (n : String) (m : MultiWan) (st : Restores) (calls : List Restoring)
    → IsGapped (restored_at n st) (redials_of n m st calls)
redials_of-IsGapped n m st [] = tt
redials_of-IsGapped n m st (c ∷ calls) =
    let (r, st') = dial_restore_with m c.force c.free c.recorded c.late st c.time c.outside in
    IsGapped-by c.force c.recorded c.time (restored_at n st) (restored_at n st')
      (first_start n r.events) (redials_of n m st' calls)
      (dial_restore_with-EffectOf n m c.force c.free c.recorded c.late st c.time c.outside)
      (redials_of-IsGapped n m st' calls)
