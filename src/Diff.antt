-- ===== src/Diff.antt =====
-- The line diff of one file: the trimming in fileDiff and lineOps of mr/history.go, on lists of
-- lines. The masking of secrets, the cut of the old and new text into lines and the text of the
-- printed lines are not modelled.
pub mod Replay
pub mod Optimal
pub mod Tests
use text.Mathlib.Text.{◌==◌ as str_eq}
use mini_router.Prelude.{
  ℕ, zero, suc, ◌+◌, ◌-◌, ◌*◌, Bool, true, false, ◌&&◌, String, Option, none, some, List, [], ◌∷◌,
  ◌++◌, map, if◌then◌else◌, ltb, leb, length, take, drop,
}

pub data Op : Type 0 where
  same gone added : String → Op

abbrev pub head_or : ℕ → List ℕ → ℕ
head_or n [] = n
head_or n (x ∷ l) = x

abbrev pub zeros : List String → List ℕ
zeros [] = 0 ∷ []
zeros (y ∷ b) = 0 ∷ zeros b

-- the row L[i] for the line a[i], from the row L[i+1]
unfoldable pub row : String → List String → List ℕ → List ℕ
row x [] below = 0 ∷ []
row x (y ∷ b) below =
    let rest = row x b (drop 1 below) in
    (if str_eq x y
      then head_or 0 (drop 1 below) + 1
      else if leb (head_or 0 rest) (head_or 0 below)
      then head_or 0 below
      else head_or 0 rest)
    ∷ rest

-- the row L[0] of a suffix of the old lines; its entry j is L[0][j]
unfoldable pub top_row : List String → List String → List ℕ
top_row [] b = zeros b
top_row (x ∷ a) b = row x b (top_row a b)

-- The walk along the table while the old line `x` is not passed: `here` and `below` are the rows of
-- `x` and of the line behind it from the new line on, `next` goes on behind `x`.
unfoldable pub walk_line :
    String → (List String → List Op) → List String → List ℕ → List ℕ → List Op
walk_line x next [] here below = gone x ∷ next []
walk_line x next (y ∷ b) here below =
    let plus = walk_line x next b (drop 1 here) (drop 1 below) in
    if str_eq x y
    then same x ∷ next b
    else if leb (head_or 0 below) (head_or 0 (drop 1 here))
    then added y ∷ plus
    else gone x ∷ next (y ∷ b)

unfoldable pub walk : List String → List String → List Op
walk [] b = map added b
walk (x ∷ a) b = walk_line x (walk a) b (top_row (x ∷ a) b) (top_row a b)

-- lineOps
unfoldable pub line_ops : List String → List String → List Op
line_ops a b = if ltb 250000 (length a * length b) then map gone a ++ map added b else walk a b

-- how many lines two texts start with in common
unfoldable pub common : List String → List String → ℕ
common [] b = 0
common (x ∷ a) [] = 0
common (x ∷ a) (y ∷ b) = let rest = common a b in if str_eq x y then suc rest else 0

unfoldable pub reversed : List String → List String → List String
reversed seen [] = seen
reversed seen (x ∷ l) = reversed (x ∷ seen) l

-- The hunk of a diff: the line it starts at, up to 3 lines in front, the changes, and up to 3 lines
-- behind.
pub record Hunk : Type 0 where
  pub start : ℕ
  pub before : List String
  pub ops : List Op
  pub behind : List String

-- the lines that both texts start with and end with
unfoldable pub head_count : List String → List String → ℕ
head_count a b = common a b

unfoldable pub tail_count : List String → List String → ℕ
tail_count a b = let i = head_count a b in common (reversed [] (drop i a)) (reversed [] (drop i b))

abbrev pub middle : ℕ → ℕ → List String → List String
middle i j a = take (length a - i - j) (drop i a)

abbrev pub until_empty : List String → List String
until_empty [] = []
until_empty (x ∷ l) = let rest = until_empty l in if str_eq x "" then [] else x ∷ rest

-- fileDiff on texts that differ
unfoldable pub file_diff : List String → List String → Hunk
file_diff a b =
    let i = head_count a b in
    let j = tail_count a b in
    record {
      start = i;
      before = drop (i - 3) (take i a);
      ops = line_ops (middle i j a) (middle i j b);
      behind = take 3 (until_empty (drop (length a - j) a));
    }
