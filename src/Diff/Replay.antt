-- ===== src/Diff/Replay.antt =====
-- Each diff turns the old lines into the new ones.
use mini_router.Prelude.{
  ℕ, ◌*◌, ◌≡◌, refl, String, List, [], ◌∷◌, ◌++◌, map, ltb, length, drop, arith, eq_iff, ap,
  Bool-cases, inl, inr,
}
use mini_router.Diff.{Op, same, gone, added, walk_line, walk, line_ops}

-- the lines of the old and of the new text that the operations go through
abbrev pub old_lines : List Op → List String
old_lines [] = []
old_lines (same x ∷ l) = x ∷ old_lines l
old_lines (gone x ∷ l) = x ∷ old_lines l
old_lines (added x ∷ l) = old_lines l

abbrev pub new_lines : List Op → List String
new_lines [] = []
new_lines (same x ∷ l) = x ∷ new_lines l
new_lines (gone x ∷ l) = new_lines l
new_lines (added x ∷ l) = x ∷ new_lines l

old_lines-added : (b : List String) → old_lines (map added b) ≡ []
old_lines-added [] = refl
old_lines-added (y ∷ b) = old_lines-added b

new_lines-added : (b : List String) → new_lines (map added b) ≡ b
new_lines-added [] = refl
new_lines-added (y ∷ b) = ap (λ l. y ∷ l) (new_lines-added b)

old_lines-walk_line :
    (x : String) (a : List String) (next : List String → List Op) (b : List String)
    (here below : List ℕ)
    → ((b : List String) → old_lines (next b) ≡ a)
    → old_lines (walk_line x next b here below) ≡ x ∷ a
unfolding walk_line
old_lines-walk_line x a next [] here below h = ap (λ l. x ∷ l) (h [])
old_lines-walk_line x a next (y ∷ b) here below h =
    ground (arith, h b, h (y ∷ b), old_lines-walk_line x a next b (drop 1 here) (drop 1 below) h)

new_lines-walk_line :
    (x : String) (next : List String → List Op) (b : List String) (here below : List ℕ)
    → ((b : List String) → new_lines (next b) ≡ b)
    → new_lines (walk_line x next b here below) ≡ b
unfolding walk_line
new_lines-walk_line x next [] here below h = h []
new_lines-walk_line x next (y ∷ b) here below h =
    ground (
      arith,
      h b,
      h (y ∷ b),
      eq_iff x y,
      new_lines-walk_line x next b (drop 1 here) (drop 1 below) h,
    )

old_lines-walk : (a b : List String) → old_lines (walk a b) ≡ a
unfolding walk
old_lines-walk [] b = old_lines-added b
old_lines-walk (x ∷ a) b = old_lines-walk_line x a (walk a) b _ _ (old_lines-walk a)

new_lines-walk : (a b : List String) → new_lines (walk a b) ≡ b
unfolding walk
new_lines-walk [] b = new_lines-added b
new_lines-walk (x ∷ a) b = new_lines-walk_line x (walk a) b _ _ (new_lines-walk a)

old_lines-gone : (a b : List String) → old_lines (map gone a ++ map added b) ≡ a
old_lines-gone [] b = old_lines-added b
old_lines-gone (x ∷ a) b = ap (λ l. x ∷ l) (old_lines-gone a b)

new_lines-gone : (a b : List String) → new_lines (map gone a ++ map added b) ≡ b
new_lines-gone [] b = new_lines-added b
new_lines-gone (x ∷ a) b = new_lines-gone a b

-- Whatever the sizes of the texts, the operations of the diff go through exactly the old lines, and
-- through exactly the new ones, in their order.
pub line_ops-lines :
    (a b : List String) → (old_lines (line_ops a b) ≡ a) × (new_lines (line_ops a b) ≡ b)
unfolding line_ops
line_ops-lines a b = elim (Bool-cases (ltb 250000 (length a * length b))) [
  | inl e ↦ rw e (old_lines-gone a b, new_lines-gone a b)
  | inr e ↦ rw e (old_lines-walk a b, new_lines-walk a b)
]
