-- ===== src/FwTime/Matches.antt =====
-- The matches of the merged windows (mr/mod_fw_time.go fwTimeMatches, its second half): the windows
-- are cut at UTC midnight and where the kernel's weekday changes, and the pieces of one range of the
-- day become one match.
use mini_router.Prelude.{
  ℕ, zero, suc, ◌+◌, ◌-◌, ◌*◌, ◌/◌, ◌%◌, Bool, true, false, not, ◌&&◌, ◌||◌, Option, none, some,
  List, [], ◌∷◌, ◌++◌, if◌then◌else◌, ltb, leb, ◌==◌,
}
use mini_router.FwTime.{
  fw_week, mod_minus, FwClock, FwTime, Iv, all_ivs, sort_ivs, merge_ivs, plus, minus,
}

-- when the kernel's weekday changes, as seconds of the UTC day
unfoldable pub kernel_off : FwClock → ℕ
kernel_off clk = elim clk.kernel_west [
  | plus o ↦ (o % 86400 + 86400) % 86400
  | minus o ↦ (86400 - o % 86400) % 86400
]

-- the kernel's weekday at a UTC second of the week
unfoldable pub kernel_day : FwClock → ℕ → ℕ
kernel_day clk p = mod_minus p clk.kernel_west fw_week / 86400

-- the end of the piece that starts at `p`
unfoldable pub piece_end : FwClock → ℕ → ℕ → ℕ
piece_end clk p b =
    let k = kernel_off clk in
    let midnight = (p / 86400 + 1) * 86400 in
    let turned =
      if leb k p then ((p - k) % 86400 + 86400) % 86400 else (86400 - (k - p) % 86400) % 86400 in
    let boundary = p + 86400 - turned in
    let q = if ltb boundary midnight then boundary else midnight in if ltb b q then b else q

-- a range of seconds of the UTC day, both ends in it, and a kernel weekday
abbrev pub Piece : Type 0
Piece = (ℕ × ℕ) × ℕ

-- the inner loop; each round moves the start, so the length of what is left bounds the rounds
unfoldable pub pieces : FwClock → ℕ → ℕ → ℕ → List Piece
pieces clk zero p b = []
pieces clk (suc fuel) p b =
    let q = piece_end clk p b in
    let rest = pieces clk fuel q b in
    if ltb p b then ((p % 86400, (q - 1) % 86400), kernel_day clk p) ∷ rest else []

abbrev pub all_pieces : FwClock → List Iv → List Piece
all_pieces clk [] = []
all_pieces clk (x ∷ l) = pieces clk (x.1 - x.0) x.0 x.1 ++ all_pieces clk l

-- the kernel weekdays of each range
abbrev pub Group : Type 0
Group = (ℕ × ℕ) × (ℕ → Bool)

abbrev pub set_day : ℕ → (ℕ → Bool) → ℕ → Bool
set_day d days k = d == k || days k

abbrev pub no_day : ℕ → Bool
no_day k = false

abbrev pub same_range : ℕ × ℕ → ℕ × ℕ → Bool
same_range j k = j.0 == k.0 && j.1 == k.1

unfoldable pub add_piece : Piece → List Group → List Group
add_piece p [] = (p.0, set_day p.1 no_day) ∷ []
add_piece p (g ∷ l) =
    let rest = add_piece p l in if same_range g.0 p.0 then (g.0, set_day p.1 g.1) ∷ l else g ∷ rest

abbrev pub group_pieces : List Piece → List Group → List Group
group_pieces [] groups = groups
group_pieces (p ∷ l) groups = group_pieces l (add_piece p groups)

abbrev pub before_range : ℕ × ℕ → ℕ × ℕ → Bool
before_range j k = if not (j.0 == k.0) then ltb j.0 k.0 else ltb j.1 k.1

unfoldable pub insert_group : Group → List Group → List Group
insert_group g [] = g ∷ []
insert_group g (h ∷ l) =
    let rest = insert_group g l in if before_range h.0 g.0 then h ∷ rest else g ∷ h ∷ l

abbrev pub sort_groups : List Group → List Group
sort_groups [] = []
sort_groups (g ∷ l) = insert_group g (sort_groups l)

abbrev pub one_if : Bool → ℕ
one_if true = 1
one_if false = 0

-- len of the set of weekdays
unfoldable pub count_days : (ℕ → Bool) → ℕ
count_days f =
    one_if (f 0)
    + one_if (f 1)
    + one_if (f 2)
    + one_if (f 3)
    + one_if (f 4)
    + one_if (f 5)
    + one_if (f 6)

-- "meta day { … }" and "meta hour a-b"; none where the part is left out
pub record Match : Type 0 where
  pub meta_day : Option (ℕ → Bool)
  pub meta_hour : Option (ℕ × ℕ)

abbrev pub any_time : Match
any_time = record { meta_day = none; meta_hour = none }

unfoldable pub group_match : Group → Match
group_match g = record {
  meta_day = if ltb (count_days g.1) 7 then some g.1 else none;
  meta_hour = if g.0.0 == 0 && g.0.1 == 86399 then none else some g.0;
}

abbrev pub is_none {ℓ} : {A : Type ℓ} → Option A → Bool
is_none none = true
is_none (some a) = false

abbrev pub is_any : Match → Bool
is_any m = is_none m.meta_day && is_none m.meta_hour

-- the last loop, which returns at once when the windows cover the whole week
unfoldable pub group_matches : List Group → List Match → List Match
group_matches [] out = out
group_matches (g ∷ l) out =
    let rest = group_matches l (out ++ (group_match g ∷ [])) in
    if is_any (group_match g) then any_time ∷ [] else rest

abbrev pub is_whole_week : List Iv → Bool
is_whole_week [] = false
is_whole_week ((a, b) ∷ []) = a == 0 && b == fw_week
is_whole_week (x ∷ y ∷ l) = false

-- fwTimeMatches; a rule is emitted once for each match
unfoldable pub fw_time_matches : List FwTime → FwClock → List Match
fw_time_matches [] clk = any_time ∷ []
fw_time_matches (t ∷ sch) clk =
    let merged = merge_ivs (sort_ivs (all_ivs clk (t ∷ sch))) in
    if is_whole_week merged
    then any_time ∷ []
    else group_matches (sort_groups (group_pieces (all_pieces clk merged) [])) []
