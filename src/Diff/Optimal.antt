-- ===== src/Diff/Optimal.antt =====
-- The diff of texts of a moderate size keeps as many lines as any can.
use text.Mathlib.Text.{◌==◌ as str_eq}
use mini_router.Prelude.{
  ℕ, suc, ◌+◌, ◌*◌, ◌≤◌, ◌≡◌, refl, Bool, true, false, ◌&&◌, ◌||◌, String, List, [], ◌∷◌, map,
  if◌then◌else◌, ltb, leb, length, drop, arith, eq_iff, ap, Bool-cases, inl, inr, sym, ◌∙◌,
}
use mini_router.Diff.{Op, same, gone, added, head_or, row, top_row, walk_line, walk, line_ops}

-- how many lines a diff keeps
abbrev pub kept : List Op → ℕ
kept [] = 0
kept (same x ∷ l) = suc (kept l)
kept (gone x ∷ l) = kept l
kept (added x ∷ l) = kept l

-- the lines of `s` stand in this order among the others
abbrev pub is_within : List String → List String → Bool
is_within [] l = true
is_within (z ∷ s) [] = false
is_within (z ∷ s) (x ∷ l) =
    let later = is_within (z ∷ s) l in let rest = is_within s l in later || (str_eq z x && rest)

is_within-tail :
    (z : String) (s l : List String) → is_within (z ∷ s) l ≡ true → is_within s l ≡ true
is_within-tail z [] l h = refl
is_within-tail z (y ∷ s) [] h = cc
is_within-tail z (y ∷ s) (x ∷ l) h = ground (arith, is_within-tail z (y ∷ s) l)

-- L[0][0]
best : List String → List String → ℕ
best a b = head_or 0 (top_row a b)

drop-top_row : (a b : List String) (y : String) → drop 1 (top_row a (y ∷ b)) ≡ top_row a b
unfolding top_row row
drop-top_row [] b y = refl
drop-top_row (x ∷ a) b y = ap (row x b) (drop-top_row a b y)

best-cons :
    (x y : String) (a b : List String)
    → best (x ∷ a) (y ∷ b) ≡ (
        if str_eq x y
        then best a b + 1
        else if leb (best (x ∷ a) b) (best a (y ∷ b))
        then best a (y ∷ b)
        else best (x ∷ a) b)
unfolding top_row row best
best-cons x y a b = rw (drop-top_row a b y) refl

best-nil : (a : List String) → best a [] ≡ 0
unfolding top_row row best
best-nil [] = refl
best-nil (x ∷ a) = refl

best-most :
    (a b s : List String) → is_within s a ≡ true → is_within s b ≡ true → length s ≤ best a b
best-most [] b [] h k = omega arith
best-most [] b (z ∷ s) h k = cc
best-most (x ∷ a) [] [] h k = omega arith
best-most (x ∷ a) [] (z ∷ s) h k = cc
best-most (x ∷ a) (y ∷ b) [] h k = omega arith
best-most (x ∷ a) (y ∷ b) (z ∷ s) h k = rw (best-cons x y a b) (
    ground (
      arith,
      eq_iff x y,
      eq_iff z x,
      eq_iff z y,
      best-most a b (z ∷ s),
      best-most a b s,
      best-most a (y ∷ b) (z ∷ s),
      best-most (x ∷ a) b (z ∷ s),
      is_within-tail z s a,
      is_within-tail z s b,
    ))

kept-added : (b : List String) → kept (map added b) ≡ 0
kept-added [] = refl
kept-added (y ∷ b) = kept-added b

kept-pick :
    (x y : String) (c : Bool) (p q r : List Op) (i j k : ℕ)
    → kept p ≡ i
    → kept q ≡ j
    → kept r ≡ k
    → kept (if c then same x ∷ p else if leb k j then added y ∷ q else gone x ∷ r)
      ≡ (if c then i + 1 else if leb j k then k else j)
kept-pick x y true p q r i j k e f g = omega arith
kept-pick x y false p q r i j k e f g = ground arith

kept-walk_line :
    (x : String) (a b : List String)
    → ((b : List String) → kept (walk a b) ≡ best a b)
    → kept (walk_line x (walk a) b (top_row (x ∷ a) b) (top_row a b)) ≡ best (x ∷ a) b
unfolding walk_line best
kept-walk_line x a [] h = h [] ∙ best-nil a ∙ sym (best-nil (x ∷ a))
kept-walk_line x a (y ∷ b) h =
    rw (drop-top_row (x ∷ a) b y, drop-top_row a b y, best-cons x y a b)
      (kept-pick x y (str_eq x y) _ _ _ _ _ _ (h b) (kept-walk_line x a b h) (h (y ∷ b)))

best-none : (b : List String) → best [] b ≡ 0
unfolding best top_row
best-none [] = refl
best-none (y ∷ b) = refl

kept-walk : (a b : List String) → kept (walk a b) ≡ best a b
unfolding walk
kept-walk [] b = kept-added b ∙ sym (best-none b)
kept-walk (x ∷ a) b = kept-walk_line x a b (kept-walk a)

-- For texts whose lengths multiply to 250000 at most, no common subsequence of lines is longer
-- than what the diff keeps of both texts.
pub line_ops-most :
    (a b s : List String)
    → length a * length b ≤ 250000
    → is_within s a ≡ true
    → is_within s b ≡ true
    → length s ≤ kept (line_ops a b)
unfolding line_ops
line_ops-most a b s small h k = elim (Bool-cases (ltb 250000 (length a * length b))) [
  | inl e ↦ absurd (ground arith)
  | inr e ↦ rw (e, kept-walk a b) (best-most a b s h k)
]
