-- ===== src/Cron/Latest.antt =====
-- schedOff against the list of schedules: who decides whether a window is off.
use text.Mathlib.Text.{◌==◌ as str_eq}
use mini_router.Prelude.{
  ℕ, ◌*◌, ◌≡◌, ◌<◌, ◌↔◌, refl, Bool, true, false, ◌&&◌, String, List, [], ◌∷◌, ◌++◌, if◌then◌else◌,
  arith, Bool-cases, inl, inr, ap, ◌∙◌, sym, subst, ◌⊎◌, eq_iff, IsIn,
}
use mini_router.Cron.{Schedule, Wall, cron_match, fired, windows, sched_off}
use mini_router.Cron.Newest.{sched_off-OffSince}
use mini_router.Cron.Concerns.{Concerns, concerns, concerns-Concerns}

module _ (off on_act target : String) where
  -- none of the schedules that concern the window fires at the time
  abbrev pub IsSilent : List Schedule → Wall → Type 0
  IsSilent l t =
      (s : Schedule) → IsIn s l → Concerns off on_act target s → cron_match s.cron t ≡ false

  -- the last schedule of the list that concerns the window and fires at the time has the action
  abbrev pub LastFires : String → List Schedule → Wall → Type 0
  LastFires action l t =
      (before : List Schedule) × (s : Schedule) × (after : List Schedule) × (l
        ≡ before ++ (s ∷ after))
      × Concerns off on_act target s
      × (cron_match s.cron t ≡ true)
      × (s.action ≡ action)
      × IsSilent after t

  -- the window is off: some minute of the last `n` has an off schedule as the last one that fires,
  -- and no schedule of the window has fired since
  abbrev pub IsOff : List Schedule → (ℕ → Wall) → ℕ → Type 0
  IsOff l ago n =
      (i : ℕ) × (i < n) × LastFires off l (ago i) × ((j : ℕ) → j < i → IsSilent l (ago j))

  fires : Schedule → Wall → Bool
  fires s t = concerns off on_act target s && cron_match s.cron t

  fired-windows :
      (s : Schedule) (l : List Schedule) (t : Wall) (res : String)
      → fired (windows off on_act target (s ∷ l)) t res
        ≡ fired (windows off on_act target l) t (if fires s t then s.action else res)
  unfolding fired windows fires
  fired-windows s l t res = elim (Bool-cases (concerns off on_act target s)) [
    | inl e ↦ rw e refl
    | inr e ↦ rw e refl
  ]

  IsSilent-tail : (s : Schedule) (l : List Schedule) (t : Wall) → IsSilent (s ∷ l) t → IsSilent l t
  IsSilent-tail s l t q u k = q u (inr k)

  fires-IsSilent :
      (s : Schedule) (l : List Schedule) (t : Wall) → IsSilent (s ∷ l) t → fires s t ≡ false
  unfolding fires
  fires-IsSilent s l t q = elim (Bool-cases (concerns off on_act target s)) [
    | inl e ↦
        let still = q s (inl refl) ((concerns-Concerns off on_act target s).0 e) in ground arith
    | inr e ↦ ground arith
  ]

  fired-IsSilent :
      (l : List Schedule) (t : Wall) (res : String)
      → IsSilent l t
      → fired (windows off on_act target l) t res ≡ res
  unfolding fired windows
  fired-IsSilent [] t res q = refl
  fired-IsSilent (s ∷ l) t res q =
      fired-windows s l t res
      ∙ ap (λ b. fired (windows off on_act target l) t (if b then s.action else res))
          (fires-IsSilent s l t q)
      ∙ fired-IsSilent l t res (IsSilent-tail s l t q)

  fires-Concerns :
      (s : Schedule) (t : Wall)
      → (fires s t ≡ true) ↔ (Concerns off on_act target s × (cron_match s.cron t ≡ true))
  unfolding fires
  fires-Concerns s t = (
    λ e. ((concerns-Concerns off on_act target s).0 (ground arith), ground arith),
    λ (c, m). let c' = (concerns-Concerns off on_act target s).1 c in ground arith,
  )

  LastFires-cons :
      (s : Schedule) (l : List Schedule) (t : Wall) (action : String)
      → LastFires action l t
      → LastFires action (s ∷ l) t
  LastFires-cons s l t action (before, u, after, e, c, m, a, q) =
      (s ∷ before, u, after, ap (λ k. s ∷ k) e, c, m, a, q)

  -- what decides the action that `fired` answers
  fired-LastFires :
      (l : List Schedule) (t : Wall) (res : String)
      → ((fired (windows off on_act target l) t res ≡ res) × IsSilent l t)
        ⊎ LastFires (fired (windows off on_act target l) t res) l t
  unfolding fired windows
  fired-LastFires [] t res = inl (refl, λ s k. absurd k)
  fired-LastFires (s ∷ l) t res =
      subst (λ a. ((a ≡ res) × IsSilent (s ∷ l) t) ⊎ LastFires a (s ∷ l) t)
        (sym (fired-windows s l t res))
        (step (fires s t) refl (fired-LastFires l t (if fires s t then s.action else res)))
    where
      quiet_here : fires s t ≡ false → IsSilent l t → IsSilent (s ∷ l) t
      quiet_here e q u (inr k) c = q u k c
      quiet_here e q u (inl k) c = elim (Bool-cases (cron_match u.cron t)) [
        | inl m ↦
            let hit : fires s t ≡ true =
              subst (λ x. fires x t ≡ true) (sym k) ((fires-Concerns u t).1 (c, m)) in
            cc
        | inr m ↦ m
      ]

      step :
          (b : Bool)
          → fires s t ≡ b
          → ((fired (windows off on_act target l) t (if b then s.action else res)
                ≡ (if b then s.action else res))
              × IsSilent l t)
            ⊎ LastFires (fired (windows off on_act target l) t (if b then s.action else res)) l t
          → ((fired (windows off on_act target l) t (if b then s.action else res) ≡ res)
              × IsSilent (s ∷ l) t)
            ⊎ LastFires
                (fired (windows off on_act target l) t (if b then s.action else res))
                (s ∷ l)
                t
      step b e (inr later) = inr (LastFires-cons s l t _ later)
      step false e (inl (a, q)) = inl (a, quiet_here e q)
      step true e (inl (a, q)) =
          let (c, m) = (fires-Concerns s t).0 e in inr ([], s, l, refl, c, m, sym a, q)

  LastFires-fired :
      (before : List Schedule) (s : Schedule) (after : List Schedule) (t : Wall) (res : String)
      → fires s t ≡ true
      → IsSilent after t
      → fired (windows off on_act target (before ++ (s ∷ after))) t res ≡ s.action
  LastFires-fired [] s after t res hit q =
      fired-windows s after t res
      ∙ ap (λ b. fired (windows off on_act target after) t (if b then s.action else res)) hit
      ∙ fired-IsSilent after t s.action q
  LastFires-fired (u ∷ before) s after t res hit q =
      fired-windows u (before ++ (s ∷ after)) t res
      ∙ LastFires-fired before s after t (if fires u t then u.action else res) hit q

  IsSilent-named :
      str_eq off "" ≡ false
      → str_eq on_act "" ≡ false
      → (l : List Schedule) (t : Wall) → fired (windows off on_act target l) t "" ≡ ""
      → IsSilent l t
  IsSilent-named named_off named_on l t e = elim (fired-LastFires l t "") [
    | inl q ↦ q.1
    | inr (before, s, after, k, c, m, same, q) ↦ absurd (nameless c.1 (same ∙ e))
  ]
    where
      unnamed : (a b : String) → a ≡ b → b ≡ "" → str_eq a "" ≡ false → ⊥
      unnamed a b k e f = let full = (eq_iff a "").1 (k ∙ e) in cc

      nameless : {a : String} → (a ≡ off) ⊎ (a ≡ on_act) → a ≡ "" → ⊥
      nameless {a} (inl k) n = unnamed off a (sym k) n named_off
      nameless {a} (inr k) n = unnamed on_act a (sym k) n named_on

  LastFires-named :
      str_eq off "" ≡ false
      → (l : List Schedule) (t : Wall) → fired (windows off on_act target l) t "" ≡ off
      → LastFires off l t
  LastFires-named named l t e = elim (fired-LastFires l t "") [
    | inl q ↦ absurd (unnamed (sym e ∙ q.0) ((eq_iff off "").1))
    | inr k ↦ subst (λ a. LastFires a l t) e k
  ]
    where
      unnamed : off ≡ "" → (off ≡ "" → str_eq off "" ≡ true) → ⊥
      unnamed k f = let hit = f k in cc

-- For an off and an on action with names, a window is off exactly when in some minute of the last
-- eight days the last schedule of the list that concerns the window and fires has the off action, and
-- in no later minute a schedule that concerns the window fires.
pub sched_off_iff :
    (schedules : List Schedule) (off on_act target : String) (ago : ℕ → Wall)
    → str_eq off "" ≡ false
    → str_eq on_act "" ≡ false
    → (sched_off schedules off on_act target ago ≡ true)
      ↔ IsOff off on_act target schedules ago (8 * 24 * 60)
sched_off_iff schedules off on_act target ago named_off named_on = (
  λ e.
      let (i, from, to, quiet, last) =
        (sched_off-OffSince schedules off on_act target ago named_off).0 e in
      (
        i,
        to,
        LastFires-named off on_act target named_off schedules (ago i) last,
        λ j lt.
            IsSilent-named off on_act target named_off named_on schedules (ago j)
              (quiet j (omega arith) lt),
      ),
  λ (i, to, (before, s, after, k, c, m, same, q), quiet).
      (sched_off-OffSince schedules off on_act target ago named_off).1 (
        i,
        omega arith,
        to,
        λ j from lt. fired-IsSilent off on_act target schedules (ago j) "" (quiet j lt),
        ap (λ l. fired (windows off on_act target l) (ago i) "") k
            ∙ LastFires-fired off on_act target before s after (ago i) ""
                ((fires-Concerns off on_act target s (ago i)).1 (c, m)) q
            ∙ same,
      ),
)
