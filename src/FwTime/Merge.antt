-- ===== src/FwTime/Merge.antt =====
-- The union of the windows holds the seconds that they hold.
use mini_router.Prelude.{
  ℕ, ◌≡◌, ◌≤◌, refl, Bool, false, ◌&&◌, ◌||◌, List, [], ◌∷◌, ltb, leb, max, arith, Bool-cases, inl,
  inr, ◌∙◌, ap,
}
use mini_router.FwTime.{Iv, insert_iv, sort_ivs, merge_from, merge_ivs}

-- the second is in the half-open interval
abbrev pub in_iv : ℕ → Iv → Bool
in_iv u x = leb x.0 u && ltb u x.1

abbrev pub in_ivs : ℕ → List Iv → Bool
in_ivs u [] = false
in_ivs u (x ∷ l) = in_iv u x || in_ivs u l

abbrev pub StartsFrom : ℕ → List Iv → Type 0
StartsFrom a [] = Unit
StartsFrom a (x ∷ l) = (a ≤ x.0) × StartsFrom x.0 l

in_ivs-insert_iv :
    (u : ℕ) (x : Iv) (l : List Iv) → in_ivs u (insert_iv x l) ≡ (in_iv u x || in_ivs u l)
unfolding insert_iv
in_ivs-insert_iv u x [] = refl
in_ivs-insert_iv u x (y ∷ l) = ground (arith, in_ivs-insert_iv u x l)

in_ivs-sort_ivs : (u : ℕ) (l : List Iv) → in_ivs u (sort_ivs l) ≡ in_ivs u l
in_ivs-sort_ivs u [] = refl
in_ivs-sort_ivs u (x ∷ l) =
    in_ivs-insert_iv u x (sort_ivs l) ∙ ap (λ b. in_iv u x || b) (in_ivs-sort_ivs u l)

insert_iv-StartsFrom :
    (a : ℕ) (x : Iv) (l : List Iv) → a ≤ x.0 → StartsFrom a l → StartsFrom a (insert_iv x l)
unfolding insert_iv
insert_iv-StartsFrom a x [] le s = (le, tt)
insert_iv-StartsFrom a x (y ∷ l) le s = elim (Bool-cases (leb x.0 y.0)) [
  | inl e ↦ rw (insert_iv, e) (le, (ground arith, s.1))
  | inr e ↦ rw (insert_iv, e) (s.0, insert_iv-StartsFrom y.0 x l (ground arith) s.1)
]

sort_ivs-StartsFrom : (l : List Iv) → StartsFrom 0 (sort_ivs l)
sort_ivs-StartsFrom [] = tt
sort_ivs-StartsFrom (x ∷ l) =
    insert_iv-StartsFrom 0 x (sort_ivs l) (omega arith) (sort_ivs-StartsFrom l)

StartsFrom-le : (a b : ℕ) (l : List Iv) → a ≤ b → StartsFrom b l → StartsFrom a l
StartsFrom-le a b [] le s = tt
StartsFrom-le a b (x ∷ l) le s = (omega (arith, s.0), s.1)

joined :
    (u : ℕ) (x y : Iv)
    → x.0 ≤ y.0
    → y.0 ≤ x.1
    → in_iv u (x.0, max x.1 y.1) ≡ (in_iv u x || in_iv u y)
joined u x y le meet = ground arith

or_assoc : (a b c : Bool) → (a || b) || c ≡ a || (b || c)
or_assoc a b c = ground arith

in_ivs-merge_from :
    (u : ℕ) (x : Iv) (l : List Iv)
    → StartsFrom x.0 l
    → in_ivs u (merge_from x l) ≡ (in_iv u x || in_ivs u l)
unfolding merge_from
in_ivs-merge_from u x [] s = refl
in_ivs-merge_from u x (y ∷ l) s = elim (Bool-cases (leb y.0 x.1)) [
  | inl e ↦
      rw (merge_from, e)
        (in_ivs-merge_from u (x.0, max x.1 y.1) l (StartsFrom-le x.0 y.0 l s.0 s.1)
          ∙ ap (λ b. b || in_ivs u l) (joined u x y s.0 (ground arith))
          ∙ or_assoc (in_iv u x) (in_iv u y) (in_ivs u l))
  | inr e ↦ rw (merge_from, e) (ap (λ b. in_iv u x || b) (in_ivs-merge_from u y l s.1))
]

-- Sorted and merged, the intervals hold the same seconds.
pub in_ivs-merge_ivs : (u : ℕ) (l : List Iv) → in_ivs u (merge_ivs (sort_ivs l)) ≡ in_ivs u l
in_ivs-merge_ivs u l = merged (sort_ivs l) (sort_ivs-StartsFrom l) ∙ in_ivs-sort_ivs u l
  where
    merged : (l : List Iv) → StartsFrom 0 l → in_ivs u (merge_ivs l) ≡ in_ivs u l
    merged [] s = refl
    merged (x ∷ l) s = in_ivs-merge_from u x l s.1

-- every interval ends by the end of the week
abbrev pub EndBy : ℕ → List Iv → Type 0
EndBy n [] = Unit
EndBy n (x ∷ l) = (x.1 ≤ n) × EndBy n l

EndBy-insert_iv : (n : ℕ) (x : Iv) (l : List Iv) → x.1 ≤ n → EndBy n l → EndBy n (insert_iv x l)
unfolding insert_iv
EndBy-insert_iv n x [] h b = (h, tt)
EndBy-insert_iv n x (y ∷ l) h b = elim (Bool-cases (leb x.0 y.0)) [
  | inl e ↦ rw (insert_iv, e) (h, b)
  | inr e ↦ rw (insert_iv, e) (b.0, EndBy-insert_iv n x l h b.1)
]

EndBy-sort_ivs : (n : ℕ) (l : List Iv) → EndBy n l → EndBy n (sort_ivs l)
EndBy-sort_ivs n [] b = tt
EndBy-sort_ivs n (x ∷ l) b = EndBy-insert_iv n x (sort_ivs l) b.0 (EndBy-sort_ivs n l b.1)

EndBy-merge_from : (n : ℕ) (x : Iv) (l : List Iv) → x.1 ≤ n → EndBy n l → EndBy n (merge_from x l)
unfolding merge_from
EndBy-merge_from n x [] h b = (h, tt)
EndBy-merge_from n x (y ∷ l) h b = elim (Bool-cases (leb y.0 x.1)) [
  | inl e ↦ rw (merge_from, e) (EndBy-merge_from n (x.0, max x.1 y.1) l (omega (arith, b.0)) b.1)
  | inr e ↦ rw (merge_from, e) (h, EndBy-merge_from n y l b.0 b.1)
]

pub EndBy-merge_ivs : (n : ℕ) (l : List Iv) → EndBy n l → EndBy n (merge_ivs (sort_ivs l))
EndBy-merge_ivs n l b = merged (sort_ivs l) (EndBy-sort_ivs n l b)
  where
    merged : (l : List Iv) → EndBy n l → EndBy n (merge_ivs l)
    merged [] b = tt
    merged (x ∷ l) b = EndBy-merge_from n x l b.0 b.1
