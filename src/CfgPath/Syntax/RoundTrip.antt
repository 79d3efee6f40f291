-- ===== src/CfgPath/Syntax/RoundTrip.antt =====
-- Printing a path and parsing it again.
use mini_router.Prelude.{
  ℕ, zero, suc, ◌≡◌, refl, ◌+◌, ◌≤◌, ◌<◌, Bool, true, false, List, [], ◌∷◌, ◌++◌, arith, length,
  length-append, All, ap, sym, subst, ◌∙◌, ◌-◌,
}
use mini_router.Prelude.Bytes.{Bytes}
use mini_router.CfgPath.Syntax.{
  plain_key, Quoting, PathStep, key, sel, ok, ◌>>=◌, round, scan, parse_path, fmt_key, fmt_step,
  fmt_steps, fmt_path,
}
use mini_router.CfgPath.Syntax.Rounds.{IsSpellable, IsKeyIf, follows, round-fmt_step}

-- The step lists that have a text: the first step is a key, every selector name is spellable.
abbrev pub IsPath : List PathStep → Type 0
IsPath [] = ⊥
IsPath (sel k v ∷ steps) = ⊥
IsPath (key k ∷ steps) = All IsSpellable steps

any_step : (st : PathStep) → IsKeyIf false st
any_step (key k) = tt
any_step (sel k v) = tt

module _ (q : Quoting) where
  follows-fmt_steps : (steps : List PathStep) → follows (fmt_steps q false steps) ≡ true
  unfolding fmt_steps fmt_step
  follows-fmt_steps [] = refl
  follows-fmt_steps (key k ∷ steps) = refl
  follows-fmt_steps (sel k v ∷ steps) = refl

  fmt_key_pos : (k : Bytes) → 0 < length (fmt_key q k)
  unfolding fmt_key
  fmt_key_pos [] = let (r, e) = q.quote_head [] in unfold plain_key in omega arith
  fmt_key_pos (c ∷ k) = let (r, e) = q.quote_head (c ∷ k) in ground (arith, ap length e)

  fmt_step_pos :
      (first : Bool) (st : PathStep) → IsKeyIf first st → 0 < length (fmt_step q first st)
  unfolding fmt_step
  fmt_step_pos true (key k) f = fmt_key_pos k
  fmt_step_pos true (sel k v) f = elim f [ ]
  fmt_step_pos false (key k) f = omega arith
  fmt_step_pos false (sel k v) f = omega arith

  scan-round :
      (fuel : ℕ) (first : Bool) (s : Bytes) (st : PathStep) (rest : Bytes)
      → 0 < length s
      → round q first s ≡ ok (st, rest)
      → scan q (suc fuel) first s ≡ (scan q fuel false rest >>= λ steps. ok (st ∷ steps))
  unfolding scan
  scan-round fuel first [] st rest n e = elim n [ ]
  scan-round fuel first (c ∷ s) st rest n e = rw e

  length-fmt_steps :
      (first : Bool) (st : PathStep) (steps : List PathStep)
      → length (fmt_steps q first (st ∷ steps))
        ≡ length (fmt_step q first st) + length (fmt_steps q false steps)
  unfolding fmt_steps
  length-fmt_steps first st steps = length-append (fmt_step q first st) (fmt_steps q false steps)

  -- one step is read, and the rest as the rest is read
  scan-fmt_step :
      (fuel : ℕ) (first : Bool) (st : PathStep) (steps : List PathStep)
      → IsSpellable st
      → IsKeyIf first st
      → scan q fuel false (fmt_steps q false steps) ≡ ok steps
      → scan q (suc fuel) first (fmt_steps q first (st ∷ steps)) ≡ ok (st ∷ steps)
  scan-fmt_step fuel first st steps w f ih =
      let rest = fmt_steps q false steps in
      let pos : 0 < length (fmt_step q first st ++ rest) =
        omega (arith, length-append (fmt_step q first st) rest, fmt_step_pos first st f) in
      let read = round-fmt_step q first st rest w f (follows-fmt_steps steps) in
      unfold fmt_steps in
      rw (scan-round fuel first (fmt_step q first st ++ rest) st rest pos read, ih)

  -- with as much fuel as the text has bytes
  scan-fmt_steps :
      (fuel : ℕ) (steps : List PathStep)
      → length (fmt_steps q false steps) ≤ fuel
      → All IsSpellable steps
      → scan q fuel false (fmt_steps q false steps) ≡ ok steps
  scan-fmt_steps fuel [] h w = unfold scan fmt_steps in refl
  scan-fmt_steps zero (st ∷ steps) h w =
      absurd (omega (arith, length-fmt_steps false st steps, fmt_step_pos false st (any_step st)))
  scan-fmt_steps (suc fuel) (st ∷ steps) h (w, ws) =
      scan-fmt_step fuel false st steps w (any_step st) (
        scan-fmt_steps fuel steps
          (omega (arith, length-fmt_steps false st steps, fmt_step_pos false st (any_step st))) ws)

  parse_path-scan : (s : Bytes) → 0 < length s → parse_path q s ≡ scan q (length s) true s
  unfolding parse_path
  parse_path-scan [] n = elim n [ ]
  parse_path-scan (c ∷ s) n = refl

  -- Parsing a printed path gives its steps back: whatever bytes the keys and the selected values
  -- hold, if the path starts with a key and the names inside selectors are identifiers.
  pub parse_path-fmt_path :
      (steps : List PathStep) → IsPath steps → parse_path q (fmt_path q steps) ≡ ok steps
  unfolding fmt_path
  parse_path-fmt_path [] w = elim w [ ]
  parse_path-fmt_path (sel k v ∷ steps) w = elim w [ ]
  parse_path-fmt_path (key k ∷ steps) w =
      let s = fmt_steps q true (key k ∷ steps) in
      let len = length-fmt_steps true (key k) steps in
      let pos : 0 < length s = omega (arith, fmt_key_pos k, fmt_step_pos true (key k) tt) in
      let fuel : length s ≡ suc (length s - 1) = omega arith in
      parse_path-scan s pos
      ∙ subst (λ n. scan q n true s ≡ ok (key k ∷ steps)) (sym fuel)
          (scan-fmt_step (length s - 1) true (key k) steps tt tt (
            scan-fmt_steps (length s - 1) steps (omega (arith, len, fmt_step_pos true (key k) tt))
              w))
