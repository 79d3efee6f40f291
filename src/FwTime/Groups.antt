-- ===== src/FwTime/Groups.antt =====
-- The pieces of one range of the day become one match, and the matches hold where the pieces do.
use mini_router.Prelude.{
  ℕ, ◌+◌, ◌≡◌, ◌≤◌, ◌<◌, refl, Bool, true, false, ◌&&◌, ◌||◌, Option, none, some, List, [], ◌∷◌,
  ◌++◌, if◌then◌else◌, ltb, leb, ◌==◌, arith, Bool-cases, inl, inr, ◌∙◌, sym, ap, ◌⊎◌,
}
use mini_router.FwTime.Matches.{
  Piece, Group, same_range, add_piece, group_pieces, insert_group, sort_groups, count_days, one_if,
  Match, group_match, is_any, is_none, group_matches,
}

one_if_le : (b : Bool) → one_if b ≤ 1
one_if_le true = omega arith
one_if_le false = omega arith

one_if-true : (b : Bool) → 1 ≤ one_if b → b ≡ true
one_if-true true h = refl
one_if-true false h = absurd (omega arith)

seven :
    (a b c d e f g : Bool)
    → one_if a + one_if b + one_if c + one_if d + one_if e + one_if f + one_if g ≡ 7
    → (a ≡ true) × (b ≡ true) × (c ≡ true) × (d ≡ true) × (e ≡ true) × (f ≡ true) × (g ≡ true)
seven a b c d e f g h =
    let la = one_if_le a in
    let lb = one_if_le b in
    let lc = one_if_le c in
    let ld = one_if_le d in
    let le = one_if_le e in
    let lf = one_if_le f in
    let lg = one_if_le g in
    (
      one_if-true a (omega arith),
      one_if-true b (omega arith),
      one_if-true c (omega arith),
      one_if-true d (omega arith),
      one_if-true e (omega arith),
      one_if-true f (omega arith),
      one_if-true g (omega arith),
    )

count_days_le : (f : ℕ → Bool) → count_days f ≤ 7
unfolding count_days
count_days_le f = omega (
  arith,
  one_if_le (f 0),
  one_if_le (f 1),
  one_if_le (f 2),
  one_if_le (f 3),
  one_if_le (f 4),
  one_if_le (f 5),
  one_if_le (f 6),
)

-- at that second of the UTC day, on that weekday of the kernel
module _ (day second : ℕ) where
  abbrev pub in_range : ℕ × ℕ → Bool
  in_range k = leb k.0 second && leb second k.1

  abbrev pub holds_piece : Piece → Bool
  holds_piece p = in_range p.0 && (day == p.1)

  abbrev pub holds_pieces : List Piece → Bool
  holds_pieces [] = false
  holds_pieces (p ∷ l) = holds_piece p || holds_pieces l

  abbrev holds_group : Group → Bool
  holds_group g = in_range g.0 && g.1 day

  abbrev holds_groups : List Group → Bool
  holds_groups [] = false
  holds_groups (g ∷ l) = holds_group g || holds_groups l

  abbrev pub in_days : Option (ℕ → Bool) → Bool
  in_days none = true
  in_days (some days) = days day

  abbrev pub in_hours : Option (ℕ × ℕ) → Bool
  in_hours none = true
  in_hours (some k) = in_range k

  -- what the kernel makes of the match
  abbrev pub match_holds : Match → Bool
  match_holds m = in_days m.meta_day && in_hours m.meta_hour

  abbrev pub any_holds : List Match → Bool
  any_holds [] = false
  any_holds (m ∷ l) = match_holds m || any_holds l

  in_same_range : (j k : ℕ × ℕ) → same_range j k ≡ true → in_range k ≡ in_range j
  in_same_range j k e = ground arith

  holds-add_piece :
      (p : Piece) (l : List Group)
      → holds_groups (add_piece p l) ≡ (holds_piece p || holds_groups l)
  unfolding add_piece
  holds-add_piece p [] = ground arith
  holds-add_piece p (g ∷ l) = elim (Bool-cases (same_range g.0 p.0)) [
    | inl e ↦ rw (add_piece, e) (joined (in_same_range g.0 p.0 e))
    | inr e ↦
        rw (add_piece, e)
          (ap (λ b. holds_group g || b) (holds-add_piece p l)
            ∙ swap (holds_group g) (holds_piece p) (holds_groups l))
  ]
    where
      swap : (a b c : Bool) → a || (b || c) ≡ b || (a || c)
      swap a b c = ground arith

      joined :
          in_range p.0 ≡ in_range g.0
          → (in_range g.0 && (p.1 == day || g.1 day)) || holds_groups l
            ≡ (in_range p.0 && (day == p.1)) || ((in_range g.0 && g.1 day) || holds_groups l)
      joined e = rw e (distribute (in_range g.0) (g.1 day) (holds_groups l))
        where
          distribute :
              (r f c : Bool)
              → (r && (p.1 == day || f)) || c ≡ (r && (day == p.1)) || ((r && f) || c)
          distribute r f c = ground arith

  holds-group_pieces :
      (l : List Piece) (groups : List Group)
      → holds_groups (group_pieces l groups) ≡ (holds_pieces l || holds_groups groups)
  holds-group_pieces [] groups = refl
  holds-group_pieces (p ∷ l) groups =
      ground (arith, holds-group_pieces l (add_piece p groups), holds-add_piece p groups)

  holds-insert_group :
      (g : Group) (l : List Group)
      → holds_groups (insert_group g l) ≡ (holds_group g || holds_groups l)
  unfolding insert_group
  holds-insert_group g [] = refl
  holds-insert_group g (h ∷ l) = ground (arith, holds-insert_group g l)

  holds-sort_groups : (l : List Group) → holds_groups (sort_groups l) ≡ holds_groups l
  holds-sort_groups [] = refl
  holds-sort_groups (g ∷ l) =
      holds-insert_group g (sort_groups l) ∙ ap (λ b. holds_group g || b) (holds-sort_groups l)

  -- a set of seven weekdays has every one
  all_days : (f : ℕ → Bool) → count_days f ≡ 7 → day ≤ 6 → f day ≡ true
  unfolding count_days
  all_days f e h =
      let (t0, t1, t2, t3, t4, t5, t6) = seven (f 0) (f 1) (f 2) (f 3) (f 4) (f 5) (f 6) e in
      elim (weekday h) [
        | inl d ↦ rw d t0
        | inr (inl d) ↦ rw d t1
        | inr (inr (inl d)) ↦ rw d t2
        | inr (inr (inr (inl d))) ↦ rw d t3
        | inr (inr (inr (inr (inl d)))) ↦ rw d t4
        | inr (inr (inr (inr (inr (inl d))))) ↦ rw d t5
        | inr (inr (inr (inr (inr (inr d))))) ↦ rw d t6
      ]
    where
      weekday :
          day ≤ 6
          → (day ≡ 0)
            ⊎ ((day ≡ 1) ⊎ ((day ≡ 2) ⊎ ((day ≡ 3) ⊎ ((day ≡ 4) ⊎ ((day ≡ 5) ⊎ (day ≡ 6))))))
      weekday h = omega arith

  match_holds-group_match :
      (g : Group) → day ≤ 6 → second < 86400 → match_holds (group_match g) ≡ holds_group g
  unfolding group_match
  match_holds-group_match ((a, b), f) hd hs = and_swap _ _ _ _ days hours
    where
      days : in_days (if ltb (count_days f) 7 then some f else none) ≡ f day
      days = elim (Bool-cases (ltb (count_days f) 7)) [
        | inl e ↦ rw e refl
        | inr e ↦
            let full : count_days f ≡ 7 = ground (arith, count_days_le f) in
            rw e (sym (all_days f full hd))
      ]

      hours :
          in_hours (if a == 0 && b == 86399 then none else some (a, b))
          ≡ (leb a second && leb second b)
      hours = elim (Bool-cases (a == 0 && b == 86399)) [
        | inl e ↦ rw e (ground arith)
        | inr e ↦ rw e refl
      ]

      and_swap : (p q r s : Bool) → p ≡ s → q ≡ r → p && q ≡ r && s
      and_swap p q r s e f = ground arith

  is_any_holds : (m : Match) → is_any m ≡ true → match_holds m ≡ true
  is_any_holds m e = both m.meta_day m.meta_hour e
    where
      both :
          (d : Option (ℕ → Bool)) (h : Option (ℕ × ℕ))
          → is_none d && is_none h ≡ true
          → in_days d && in_hours h ≡ true
      both none none e = refl
      both none (some k) e = ground arith
      both (some f) h e = ground arith

  any_holds-append :
      (l : List Match) (m : Match) → any_holds (l ++ (m ∷ [])) ≡ (any_holds l || match_holds m)
  any_holds-append [] m = ground arith
  any_holds-append (x ∷ l) m = ground (arith, any_holds-append l m)

  holds-group_matches :
      (l : List Group) (out : List Match)
      → day ≤ 6
      → second < 86400
      → any_holds (group_matches l out) ≡ (any_holds out || holds_groups l)
  unfolding group_matches
  holds-group_matches [] out hd hs = ground arith
  holds-group_matches (g ∷ l) out hd hs = elim (Bool-cases (is_any (group_match g))) [
    | inl e ↦
        let held : holds_group g ≡ true =
          sym (match_holds-group_match g hd hs) ∙ is_any_holds (group_match g) e in
        rw (group_matches, e, held) (ground arith)
    | inr e ↦
        rw (group_matches, e)
          (holds-group_matches l (out ++ (group_match g ∷ [])) hd hs
            ∙ ap (λ b. b || holds_groups l) (any_holds-append out (group_match g))
            ∙ ap (λ b. (any_holds out || b) || holds_groups l) (match_holds-group_match g hd hs)
            ∙ or_assoc (any_holds out) (holds_group g) (holds_groups l))
  ]
    where
      or_assoc : (a b c : Bool) → (a || b) || c ≡ a || (b || c)
      or_assoc a b c = ground arith

  -- The matches hold when one of the pieces does.
  pub any_holds-pieces :
      (l : List Piece)
      → day ≤ 6
      → second < 86400
      → any_holds (group_matches (sort_groups (group_pieces l [])) []) ≡ holds_pieces l
  any_holds-pieces l hd hs =
      holds-group_matches (sort_groups (group_pieces l [])) [] hd hs
      ∙ holds-sort_groups (group_pieces l [])
      ∙ holds-group_pieces l []
      ∙ or_false (holds_pieces l)
    where
      or_false : (b : Bool) → b || false ≡ b
      or_false b = ground arith
