-- ===== src/Dial/Order.antt =====
-- dialLate finds the WANs that did something before a WAN that stands before them.
use mini_router.Prelude.{
  ℕ, ◌≡◌, ◌≤◌, ◌↔◌, refl, false, String, none, some, List, [], ◌∷◌, ltb, max, arith, Option-cases,
  inl, inr, Bool-cases,
}
use mini_router.Dial.{Links, MultiWan, dial_last, late_from, dial_late}

module _ (o : Links) where
  -- the up ones of these WANs last did something at that time or later
  abbrev pub AllSince : ℕ → List String → Type 0
  AllSince t [] = Unit
  AllSince t (m ∷ names) = ((u : ℕ) → dial_last o m ≡ some u → t ≤ u) × AllSince t names

  -- each up WAN last did something not later than the up ones after it
  abbrev pub InOrder : List String → Type 0
  InOrder [] = Unit
  InOrder (n ∷ names) = ((t : ℕ) → dial_last o n ≡ some t → AllSince t names) × InOrder names

  AllSince-le : (s t : ℕ) (names : List String) → s ≤ t → AllSince t names → AllSince s names
  AllSince-le s t [] le a = tt
  AllSince-le s t (m ∷ names) le (first, rest) =
      (λ u e. omega (arith, first u e), AllSince-le s t names le rest)

  not_up : (n : String) (u : ℕ) → dial_last o n ≡ none → dial_last o n ≡ some u → ⊥
  not_up n u down up = cc

  same_time : (n : String) (t u : ℕ) → dial_last o n ≡ some t → dial_last o n ≡ some u → t ≡ u
  same_time n t u et eu = cc

  nonempty : {n : String} {l : List String} → n ∷ l ≡ [] → ⊥
  nonempty e = cc

  le_of : (s t u : ℕ) → s ≤ t → t ≡ u → s ≤ u
  le_of s t u le e = omega arith

  top_of : (s t u : ℕ) → t ≡ u → u ≤ max s t
  top_of s t u e = omega arith

  late_from-InOrder :
      (newest : ℕ) (names : List String)
      → late_from o newest names ≡ []
      → AllSince newest names × InOrder names
  unfolding late_from
  late_from-InOrder newest [] e = (tt, tt)
  late_from-InOrder newest (n ∷ names) e = elim (Option-cases (dial_last o n)) [
    | inl down ↦
        let e' : late_from o newest names ≡ [] = rw (late_from, down) at e in
        let (since, order) = late_from-InOrder newest names e' in
        ((λ u eu. absurd (not_up n u down eu), since), (λ u eu. absurd (not_up n u down eu), order))
    | inr (t, up) ↦ elim (Bool-cases (ltb t newest)) [
      | inl late ↦
          let e' : n ∷ late_from o (max newest t) names ≡ [] = rw (late_from, up, late) at e in
          absurd (nonempty e')
      | inr fine ↦
          let e' : late_from o (max newest t) names ≡ [] = rw (late_from, up, fine) at e in
          let (since, order) = late_from-InOrder (max newest t) names e' in
          let not_before : newest ≤ t = ground arith in
          (
            (
              λ u eu. le_of newest t u not_before (same_time n t u up eu),
              AllSince-le newest (max newest t) names (omega arith) since,
            ),
            (
              λ u eu.
                  AllSince-le u (max newest t) names (top_of newest t u (same_time n t u up eu))
                    since,
              order,
            ),
          )
    ]
  ]

  InOrder-late_from :
      (newest : ℕ) (names : List String)
      → AllSince newest names
      → InOrder names
      → late_from o newest names ≡ []
  unfolding late_from
  InOrder-late_from newest [] a s = refl
  InOrder-late_from newest (n ∷ names) a s = elim (Option-cases (dial_last o n)) [
    | inl down ↦ rw (late_from, down) (InOrder-late_from newest names a.1 s.1)
    | inr (t, up) ↦
        let not_before : newest ≤ t = a.0 t up in
        let fine : ltb t newest ≡ false = ground arith in
        let top : max newest t ≡ t = omega arith in
        rw (late_from, up, fine, top) (InOrder-late_from t names (s.0 t up) s.1)
  ]

-- No WAN is late exactly when the last events of the WANs that are up come in the dial order.
pub dial_late_iff : (o : Links) (m : MultiWan) → (dial_late o m ≡ []) ↔ InOrder o m.dial_order
unfolding dial_late
dial_late_iff o m = (
  λ e. (late_from-InOrder o 0 m.dial_order e).1,
  λ s. InOrder-late_from o 0 m.dial_order (since_zero m.dial_order) s,
)
  where
    since_zero : (names : List String) → AllSince o 0 names
    since_zero [] = tt
    since_zero (n ∷ names) = (λ u e. omega arith, since_zero names)
