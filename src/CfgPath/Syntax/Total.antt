-- ===== src/CfgPath/Syntax/Total.antt =====
-- The parser's loop ends on every text: each round takes at least one byte.
use mini_router.Prelude.{
  ℕ, zero, suc, ◌≡◌, ◌≢◌, ◌≤◌, ◌<◌, Bool, true, false, List, [], ◌∷◌, arith, length, drop,
  length-drop-le, Option-cases, inl, inr, if◌then◌else◌, ◌==◌, Bool-cases, not,
}
use mini_router.Prelude.Bytes.{Bytes, span, length-span}
use mini_router.CfgPath.Syntax.{
  Quoting, Parsed, PathStep, key, ok, err, out_of_fuel, empty_key, missing_close, empty_sel, ◌>>=◌,
  quoted, sel_name, sel_value, close_sel, parse_sel, parse_key, round, scan, parse_path, is_empty,
  key_char, ident_char,
}

-- a result that is no exhausted fuel, and whose rest is shorter than `n`
abbrev pub Shorter {ℓ} : {A : Type ℓ} → ℕ → Parsed (A × Bytes) → Type 0
Shorter n (ok (a, rest)) = length rest < n
Shorter n (err out_of_fuel) = ⊥
Shorter n (err _) = Unit

drop_lt : (n : ℕ) (s : Bytes) → 0 < n → 0 < length s → length (drop n s) < length s
drop_lt zero s h k = elim h [ ]
drop_lt (suc n) [] h k = elim k [ ]
drop_lt (suc n) (c ∷ s) h k = omega (arith, length-drop-le n s)

Shorter-weaken : {A : Type 0} (n m : ℕ) (r : Parsed (A × Bytes)) → Shorter n r → n ≤ m → Shorter m r
Shorter-weaken n m (ok (a, rest)) h le = omega arith
Shorter-weaken n m (err out_of_fuel) h le = h
Shorter-weaken n m (err _) h le = tt

module _ (q : Quoting) where
  quoted-Shorter : (s : Bytes) → 0 < length s → Shorter (length s) (quoted q s)
  unfolding quoted
  quoted-Shorter s h = elim (Option-cases (q.quoted_prefix s)) [
    | inl e ↦ rw (quoted, e) tt
    | inr (p, e) ↦ elim (Option-cases (q.unquote p)) [
      | inl u ↦ rw (quoted, e, u) tt
      | inr (v, u) ↦
          rw (quoted, e, u) (drop_lt (length p) s (ground (arith, q.quoted_prefix_pos s p e)) h)
    ]
  ]

  Shorter-map :
      {A B : Type 0} (n m : ℕ) (f : A → B) (r : Parsed (A × Bytes))
      → Shorter n r
      → n ≤ m
      → Shorter m (r >>= λ p. ok (f p.0, p.1))
  Shorter-map n m f (ok (a, rest)) h le = omega arith
  Shorter-map n m f (err out_of_fuel) h le = h
  Shorter-map n m f (err _) h le = tt

  taken :
      (p : ℕ → Bool) (s : Bytes) → is_empty (span p s).0 ≡ false → length (span p s).1 < length s
  taken p s h = omega (arith, length-span p s, pos (span p s).0 h)
    where
      pos : (k : Bytes) → is_empty k ≡ false → 0 < length k
      pos [] e = cc
      pos (c ∷ k) e = omega arith

  unquoted-Shorter :
      (s : Bytes)
      → Shorter (length s) (
          if is_empty (span key_char s).0
          then err empty_key
          else ok (key (span key_char s).0, (span key_char s).1))
  unquoted-Shorter s = elim (Bool-cases (is_empty (span key_char s).0)) [
    | inl e ↦ rw e tt
    | inr e ↦ rw e (taken key_char s e)
  ]

  parse_key-Shorter : (s : Bytes) → Shorter (length s) (parse_key q s)
  unfolding parse_key
  parse_key-Shorter [] = unquoted-Shorter []
  parse_key-Shorter (c ∷ s) = elim (Bool-cases (c == b'"')) [
    | inl e ↦ rw e (
        Shorter-map (suc (length s)) _ key (quoted q (c ∷ s)) (quoted-Shorter (c ∷ s) (omega arith))
          (omega arith))
    | inr e ↦ rw e (unquoted-Shorter (c ∷ s))
  ]

  sel_name-le : (s : Bytes) → length (sel_name q s).1 ≤ length s
  unfolding sel_name
  sel_name-le s = ground (arith, length-span ident_char s, length-drop-le 1 (span ident_char s).1)

  unclosed-Shorter :
      (s v rest : Bytes)
      → length rest ≤ length s
      → Shorter (suc (length s)) (
          if is_empty rest
          then err missing_close
          else if is_empty v
          then err empty_sel
          else ok (v, rest))
  unclosed-Shorter s v [] h = tt
  unclosed-Shorter s [] (c ∷ rest) h = tt
  unclosed-Shorter s (x ∷ v) (c ∷ rest) h = omega arith

  sel_value-Shorter : (s : Bytes) → Shorter (suc (length s)) (sel_value q s)
  unfolding sel_value
  sel_value-Shorter [] = unfold span in tt
  sel_value-Shorter (c ∷ s) = elim (Bool-cases (c == b'"')) [
    | inl e ↦ rw e (
        Shorter-weaken (suc (length s)) _ (quoted q (c ∷ s)) (quoted-Shorter (c ∷ s) (omega arith))
          (omega arith))
    | inr e ↦
        rw e
          (unclosed-Shorter (c ∷ s) _ _ (omega (arith, length-span (λ x. not (x == b']')) (c ∷ s))))
  ]

  close_sel-Shorter : (k v s : Bytes) → Shorter (length s) (close_sel q k v s)
  unfolding close_sel
  close_sel-Shorter k v [] = tt
  close_sel-Shorter k v (c ∷ s) = elim (Bool-cases (c == b']')) [
    | inl e ↦ rw e (omega arith)
    | inr e ↦ rw e tt
  ]

  Shorter-bind :
      {A B : Type 0} (n m : ℕ) (r : Parsed (A × Bytes)) (f : A × Bytes → Parsed (B × Bytes))
      → Shorter n r
      → ((a : A) (rest : Bytes) → length rest < n → Shorter m (f (a, rest)))
      → Shorter m (r >>= f)
  Shorter-bind n m (ok (a, rest)) f h k = k a rest h
  Shorter-bind n m (err out_of_fuel) f h k = h
  Shorter-bind n m (err _) f h k = tt

  parse_sel-Shorter : (s : Bytes) → Shorter (suc (length s)) (parse_sel q s)
  unfolding parse_sel
  parse_sel-Shorter s =
      let (k, s') = sel_name q s in
      Shorter-bind (suc (length s')) (suc (length s)) (sel_value q s') _ (sel_value-Shorter s')
        (λ v rest h.
          Shorter-weaken (length rest) (suc (length s)) (close_sel q k v rest)
            (close_sel-Shorter k v rest) (omega (arith, sel_name-le s)))

  round-Shorter : (first : Bool) (s : Bytes) → 0 < length s → Shorter (length s) (round q first s)
  unfolding round
  round-Shorter true s h = parse_key-Shorter s
  round-Shorter false [] h = tt
  round-Shorter false (c ∷ s) h = elim (Bool-cases (c == b'[')) [
    | inl e ↦ rw e (parse_sel-Shorter s)
    | inr e ↦ elim (Bool-cases (c == b'.')) [
      | inl d ↦
          rw (e, d)
            (Shorter-weaken (length s) _ (parse_key q s) (parse_key-Shorter s) (omega arith))
      | inr d ↦ rw (e, d) tt
    ]
  ]

  keeps_fuel :
      (st : PathStep) (r : Parsed (List PathStep))
      → r ≢ err out_of_fuel
      → (r >>= λ steps. ok (st ∷ steps)) ≢ err out_of_fuel
  keeps_fuel st (ok steps) h e = cc
  keeps_fuel st (err x) h e = h e

  rounds_total :
      (fuel n : ℕ) (r : Parsed (PathStep × Bytes))
      → Shorter n r
      → ((rest : Bytes) → length rest < n → scan q fuel false rest ≢ err out_of_fuel)
      → (do (st, rest) ← r; steps ← scan q fuel false rest; ok (st ∷ steps)) ≢ err out_of_fuel
  rounds_total fuel n (ok (st, rest)) short ih e =
      keeps_fuel st (scan q fuel false rest) (ih rest short) e
  rounds_total fuel n (err out_of_fuel) short ih e = short
  rounds_total fuel n (err _) short ih e = cc

  scan_total :
      (fuel : ℕ) (first : Bool) (s : Bytes)
      → length s ≤ fuel
      → scan q fuel first s ≢ err out_of_fuel
  unfolding scan
  scan_total zero first [] h e = cc
  scan_total (suc fuel) first [] h e = cc
  scan_total zero first (c ∷ s) h e = absurd (omega arith)
  scan_total (suc fuel) first (c ∷ s) h e =
      rounds_total fuel (suc (length s)) (round q first (c ∷ s))
        (round-Shorter first (c ∷ s) (omega arith))
        (λ rest short. scan_total fuel false rest (omega arith)) e

  -- The parser returns the steps or the error of the source on every text: the fuel, one round for
  -- each byte, is never used up.
  pub parse_path_total : (p : Bytes) → parse_path q p ≢ err out_of_fuel
  unfolding parse_path
  parse_path_total [] e = cc
  parse_path_total (c ∷ p) e = scan_total (suc (length p)) true (c ∷ p) (omega arith) e
