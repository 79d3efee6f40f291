-- ===== src/Strings.antt =====
-- What the source uses of Go's package strings on ASCII text: Split, Cut, Fields, Join.
pub mod Words
use mini_router.Prelude.{
  ℕ, zero, suc, ◌+◌, ◌≡◌, refl, Bool, true, false, not, ◌&&◌, ◌||◌, List, [], ◌∷◌, ◌++◌,
  if◌then◌else◌, leb, ◌==◌, length, All, arith, Bool-cases, inl, inr, ap, ◌∙◌, sym,
}
use mini_router.Prelude.Bytes.{Bytes, has_byte, all_bytes}

abbrev pub cons_first : ℕ → List Bytes → List Bytes
cons_first c [] = (c ∷ []) ∷ []
cons_first c (w ∷ ws) = (c ∷ w) ∷ ws

-- the pieces between the bytes that satisfy `p`
unfoldable pub split_if : (ℕ → Bool) → Bytes → List Bytes
split_if p [] = [] ∷ []
split_if p (c ∷ s) = let rest = split_if p s in if p c then [] ∷ rest else cons_first c rest

-- strings.Split for a separator of one byte
abbrev pub split : ℕ → Bytes → List Bytes
split b s = split_if (λ c. c == b) s

-- strings.Cut: what stands before the separator and after it, and whether it was found
unfoldable pub cut : ℕ → Bytes → Bytes × (Bytes × Bool)
cut b [] = ([], ([], false))
cut b (c ∷ s) =
    let (before, rest) = cut b s in if c == b then ([], (s, true)) else (c ∷ before, rest)

abbrev pub is_space : ℕ → Bool
is_space c = c == 32 || (leb 9 c && leb c 13)

abbrev pub drop_empty : List Bytes → List Bytes
drop_empty [] = []
drop_empty ([] ∷ ws) = drop_empty ws
drop_empty ((c ∷ w) ∷ ws) = (c ∷ w) ∷ drop_empty ws

-- strings.Fields
unfoldable pub fields : Bytes → List Bytes
fields s = drop_empty (split_if is_space s)

-- strings.Join with a space
unfoldable pub join : List Bytes → Bytes
join [] = []
join (w ∷ []) = w
join (w ∷ v ∷ ws) = w ++ (32 ∷ join (v ∷ ws))

-- ==
abbrev pub same_bytes : Bytes → Bytes → Bool
same_bytes [] [] = true
same_bytes [] (d ∷ t) = false
same_bytes (c ∷ s) [] = false
same_bytes (c ∷ s) (d ∷ t) = c == d && same_bytes s t

abbrev pub nth : List Bytes → ℕ → Bytes
nth [] k = []
nth (w ∷ ws) zero = w
nth (w ∷ ws) (suc k) = nth ws k

module _ (p : ℕ → Bool) where
  split_if_pos : (s : Bytes) → leb 1 (length (split_if p s)) ≡ true
  unfolding split_if
  split_if_pos [] = refl
  split_if_pos (c ∷ s) = ground (arith, length_pos (split_if p s))
    where
      length_pos : (ws : List Bytes) → leb 1 (length (cons_first c ws)) ≡ true
      length_pos [] = refl
      length_pos (w ∷ ws) = ground arith

  pub split_if-one : (s : Bytes) → all_bytes (λ c. not (p c)) s ≡ true → split_if p s ≡ s ∷ []
  unfolding split_if
  split_if-one [] h = refl
  split_if-one (c ∷ s) h = ground (arith, split_if-one s)

  length-cons_first :
      (c : ℕ) (ws : List Bytes) → leb 1 (length ws) ≡ true → length (cons_first c ws) ≡ length ws
  length-cons_first c [] h = ground arith
  length-cons_first c (w ∷ ws) h = refl

  pub length-split_if_single :
      (s : Bytes) → length (split_if p s) ≡ 1 → all_bytes (λ c. not (p c)) s ≡ true
  unfolding split_if
  length-split_if_single [] h = refl
  length-split_if_single (c ∷ s) h = ground (
    arith,
    length-split_if_single s,
    split_if_pos s,
    length-cons_first c (split_if p s) (split_if_pos s),
  )

pub cut_lacks :
    (b : ℕ) (s : Bytes) → all_bytes (λ c. not (c == b)) s ≡ true → cut b s ≡ (s, ([], false))
unfolding cut
cut_lacks b [] h = refl
cut_lacks b (c ∷ s) h = ground (arith, cut_lacks b s)

pub same_bytes_refl : (s : Bytes) → same_bytes s s ≡ true
same_bytes_refl [] = refl
same_bytes_refl (c ∷ s) = ground (arith, same_bytes_refl s)

pub same_bytes_eq : (s t : Bytes) → same_bytes s t ≡ true → s ≡ t
same_bytes_eq [] [] e = refl
same_bytes_eq [] (d ∷ t) e = ground arith
same_bytes_eq (c ∷ s) [] e = ground arith
same_bytes_eq (c ∷ s) (d ∷ t) e =
    let head : c ≡ d = ground arith in let tail : s ≡ t = same_bytes_eq s t (ground arith) in cc
