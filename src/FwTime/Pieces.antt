-- ===== src/FwTime/Pieces.antt =====
-- An interval cut at UTC midnight and at the kernel's: a piece matches the seconds that it has.
use mini_router.Prelude.{
  ℕ, zero, suc, ◌+◌, ◌-◌, ◌*◌, ◌%◌, ◌/◌, ◌≡◌, ◌≤◌, ◌<◌, refl, Bool, true, false, ◌&&◌, ◌||◌, List,
  [], ◌∷◌, ◌++◌, if◌then◌else◌, ltb, leb, ◌==◌, arith, Bool-cases, inl, inr, ◌∙◌, sym, ap,
}
use mini_router.FwTime.{Offset, plus, minus, fw_week, FwClock, Iv}
use mini_router.FwTime.Matches.{Piece, kernel_off, kernel_day, piece_end, pieces, all_pieces}
use mini_router.FwTime.Merge.{in_iv, in_ivs, EndBy}
use mini_router.FwTime.Windows.{east, mod_minus-east, east_small}

-- the kernel, at this UTC second of the week, is in the range on that weekday
abbrev pub piece_holds : FwClock → ℕ → Piece → Bool
piece_holds clk u p = leb p.0.0 (u % 86400) && leb (u % 86400) p.0.1 && (kernel_day clk u == p.1)

abbrev pub pieces_hold : FwClock → ℕ → List Piece → Bool
pieces_hold clk u [] = false
pieces_hold clk u (p ∷ l) = piece_holds clk u p || pieces_hold clk u l

abbrev kernel_second : Offset → ℕ → ℕ
kernel_second o u = (u + (fw_week - east o)) % fw_week

kernel_day_second :
    (clk : FwClock) (u : ℕ)
    → u < fw_week
    → kernel_day clk u ≡ kernel_second clk.kernel_west u / 86400
unfolding kernel_day
kernel_day_second clk u h = ap (λ v. v / 86400) (mod_minus-east u clk.kernel_west h)

kernel_off-east : (clk : FwClock) → kernel_off clk ≡ east clk.kernel_west % 86400
unfolding kernel_off
kernel_off-east clk = off clk.kernel_west
  where
    off :
        (o : Offset)
        → (elim o [ plus o ↦ (o % 86400 + 86400) % 86400 | minus o ↦ (86400 - o % 86400) % 86400 ])
          ≡ east o % 86400
    off (plus o) = omega arith
    off (minus o) = omega arith

-- how far the kernel's day has come at `p`
abbrev turned : ℕ → ℕ → ℕ
turned k p =
    if leb k p then ((p - k) % 86400 + 86400) % 86400 else (86400 - (k - p) % 86400) % 86400

turned_second :
    (z p : ℕ)
    → z < fw_week
    → p < fw_week
    → turned (z % 86400) p ≡ (p + (fw_week - z)) % fw_week % 86400
turned_second z p hz hp = elim (Bool-cases (leb (z % 86400) p)) [
  | inl e ↦ let le : z % 86400 ≤ p = ground arith in rw e (less le)
  | inr e ↦ let lt : p < z % 86400 = ground arith in rw e (more lt)
]
  where
    less :
        z % 86400 ≤ p
        → ((p - z % 86400) % 86400 + 86400) % 86400 ≡ (p + (fw_week - z)) % fw_week % 86400
    less le = omega arith

    more :
        p < z % 86400
        → (86400 - (z % 86400 - p) % 86400) % 86400 ≡ (p + (fw_week - z)) % fw_week % 86400
    more lt = omega arith

abbrev cut_at : ℕ → ℕ → ℕ → ℕ
cut_at p b t =
    let midnight = (p / 86400 + 1) * 86400 in
    let boundary = p + 86400 - t in
    let q = if ltb boundary midnight then boundary else midnight in if ltb b q then b else q

cut_at_least :
    (p b t : ℕ)
    → p < b
    → t < 86400
    → (p < cut_at p b t)
      × (cut_at p b t ≤ b)
      × (cut_at p b t ≤ (p / 86400 + 1) * 86400)
      × (cut_at p b t + t ≤ p + 86400)
cut_at_least p b t lt ht = ground arith

-- the end of a piece is the first of the end, the next UTC midnight and the next kernel midnight
piece_end_least :
    (clk : FwClock) (p b : ℕ)
    → p < b
    → b ≤ fw_week
    → (p < piece_end clk p b)
      × (piece_end clk p b ≤ b)
      × (piece_end clk p b ≤ (p / 86400 + 1) * 86400)
      × (piece_end clk p b + kernel_second clk.kernel_west p % 86400 ≤ p + 86400)
unfolding piece_end
piece_end_least clk p b lt le =
    let same =
      ap (λ k. turned k p) (kernel_off-east clk)
      ∙ turned_second (east clk.kernel_west) p (east_small clk.kernel_west) (omega arith) in
    rw same (cut_at_least p b (kernel_second clk.kernel_west p % 86400) lt (omega arith))

-- Two seconds of the week on one kernel day and in one range of the UTC day are as far apart there
-- as in the week.
same_piece :
    (z p q u : ℕ)
    → z < fw_week
    → p < q
    → q ≤ fw_week
    → u < fw_week
    → q ≤ (p / 86400 + 1) * 86400
    → q + (p + (fw_week - z)) % fw_week % 86400 ≤ p + 86400
    → p % 86400 ≤ u % 86400
    → u % 86400 ≤ (q - 1) % 86400
    → (u + (fw_week - z)) % fw_week / 86400 ≡ (p + (fw_week - z)) % fw_week / 86400
    → (p ≤ u) × (u < q)
same_piece z p q u hz lt le hu mid ker lo hi day = omega arith

within_piece :
    (z p q u : ℕ)
    → z < fw_week
    → q ≤ fw_week
    → q ≤ (p / 86400 + 1) * 86400
    → q + (p + (fw_week - z)) % fw_week % 86400 ≤ p + 86400
    → p ≤ u
    → u < q
    → (p % 86400 ≤ u % 86400)
      × (u % 86400 ≤ (q - 1) % 86400)
      × ((u + (fw_week - z)) % fw_week / 86400 ≡ (p + (fw_week - z)) % fw_week / 86400)
within_piece z p q u hz le mid ker lo hi = omega arith

-- a Boolean is a test when they hold together
test_eq : (b c : Bool) → (b ≡ true → c ≡ true) → (c ≡ true → b ≡ true) → b ≡ c
test_eq true c f g = sym (f refl)
test_eq false true f g = g refl
test_eq false false f g = refl

tests_of : (a b c d e f : ℕ) → leb a b && leb c d && (e == f) ≡ true → (a ≤ b) × (c ≤ d) × (e ≡ f)
tests_of a b c d e f h = (ground arith, ground arith, ground arith)

of_tests : (a b c d e f : ℕ) → a ≤ b → c ≤ d → e ≡ f → leb a b && leb c d && (e == f) ≡ true
of_tests a b c d e f h k m = ground arith

in_of : (p q u : ℕ) → p ≤ u → u < q → leb p u && ltb u q ≡ true
in_of p q u h k = ground arith

of_in : (p q u : ℕ) → leb p u && ltb u q ≡ true → (p ≤ u) × (u < q)
of_in p q u h = (ground arith, ground arith)

adjacent :
    (p q b u : ℕ) → p < q → q ≤ b → leb p u && ltb u q || leb q u && ltb u b ≡ leb p u && ltb u b
adjacent p q b u lt le = ground arith

piece_holds_iv :
    (clk : FwClock) (p b u : ℕ)
    → p < b
    → b ≤ fw_week
    → u < fw_week
    → piece_holds clk u ((p % 86400, (piece_end clk p b - 1) % 86400), kernel_day clk p)
      ≡ in_iv u (p, piece_end clk p b)
piece_holds_iv clk p b u lt le hu =
    let (ahead, by_end, mid, ker) = piece_end_least clk p b lt le in
    let z = east clk.kernel_west in
    let hz = east_small clk.kernel_west in
    let q = piece_end clk p b in
    rw (kernel_day_second clk u hu, kernel_day_second clk p (omega arith))
      (held z q hz ahead (omega arith) mid ker)
  where
    held :
        (z q : ℕ)
        → z < fw_week
        → p < q
        → q ≤ fw_week
        → q ≤ (p / 86400 + 1) * 86400
        → q + (p + (fw_week - z)) % fw_week % 86400 ≤ p + 86400
        → leb (p % 86400) (u % 86400)
            && leb (u % 86400) ((q - 1) % 86400)
            && ((u + (fw_week - z)) % fw_week / 86400 == (p + (fw_week - z)) % fw_week / 86400)
          ≡ leb p u && ltb u q
    held z q hz ahead le mid ker =
        test_eq _ _
          (λ h.
            let (lo, hi, day) = tests_of _ _ _ _ _ _ h in
            let (from, to) = same_piece z p q u hz ahead le hu mid ker lo hi day in
            in_of p q u from to)
          (λ h.
            let (from, to) = of_in p q u h in
            let (lo, hi, day) = within_piece z p q u hz le mid ker from to in
            of_tests _ _ _ _ _ _ lo hi day)

pieces_hold_iv :
    (clk : FwClock) (u fuel p b : ℕ)
    → b ≤ p + fuel
    → b ≤ fw_week
    → u < fw_week
    → pieces_hold clk u (pieces clk fuel p b) ≡ in_iv u (p, b)
unfolding pieces
pieces_hold_iv clk u zero p b enough le hu = ground arith
pieces_hold_iv clk u (suc fuel) p b enough le hu = elim (Bool-cases (ltb p b)) [
  | inl e ↦
      let lt : p < b = ground arith in
      let (ahead, by_end, mid, ker) = piece_end_least clk p b lt le in
      rw (pieces, e)
        (ap (λ c. c || pieces_hold clk u (pieces clk fuel (piece_end clk p b) b))
            (piece_holds_iv clk p b u lt le hu)
          ∙ ap (λ c. in_iv u (p, piece_end clk p b) || c)
              (pieces_hold_iv clk u fuel (piece_end clk p b) b (omega arith) le hu)
          ∙ adjacent p (piece_end clk p b) b u ahead by_end)
  | inr e ↦ rw (pieces, e) (empty_iv e)
]
  where
    empty_iv : ltb p b ≡ false → false ≡ in_iv u (p, b)
    empty_iv e = ground arith

pieces_hold-append :
    (clk : FwClock) (u : ℕ) (l r : List Piece)
    → pieces_hold clk u (l ++ r) ≡ (pieces_hold clk u l || pieces_hold clk u r)
pieces_hold-append clk u [] r = refl
pieces_hold-append clk u (p ∷ l) r = ground (arith, pieces_hold-append clk u l r)

-- The pieces of intervals within the week match the seconds of the intervals.
pub pieces_hold-all_pieces :
    (clk : FwClock) (u : ℕ) (l : List Iv)
    → EndBy fw_week l
    → u < fw_week
    → pieces_hold clk u (all_pieces clk l) ≡ in_ivs u l
pieces_hold-all_pieces clk u [] ends hu = refl
pieces_hold-all_pieces clk u (x ∷ l) ends hu =
    pieces_hold-append clk u (pieces clk (x.1 - x.0) x.0 x.1) (all_pieces clk l)
    ∙ ap (λ c. c || pieces_hold clk u (all_pieces clk l))
        (pieces_hold_iv clk u (x.1 - x.0) x.0 x.1 (omega arith) ends.0 hu)
    ∙ ap (λ c. in_iv u x || c) (pieces_hold-all_pieces clk u l ends.1 hu)
