-- ===== src/Strings/Words.antt =====
-- strings.Fields and strings.Join: the words that Fields finds are found again when they are joined.
use mini_router.Prelude.{
  ℕ, ◌≡◌, refl, Bool, true, false, not, ◌&&◌, List, [], ◌∷◌, ◌++◌, arith, ap, ◌∙◌,
}
use mini_router.Prelude.Bytes.{Bytes, all_bytes}
use mini_router.Strings.{split_if, cons_first, is_space, drop_empty, fields, join, split_if-one}

-- a byte that separates no words
abbrev pub in_word : ℕ → Bool
in_word c = not (is_space c)

abbrev pub is_word : Bytes → Bool
is_word [] = false
is_word (c ∷ w) = all_bytes in_word (c ∷ w)

abbrev pub are_words : List Bytes → Bool
are_words [] = true
are_words (w ∷ ws) = is_word w && are_words ws

abbrev all_plain : (ℕ → Bool) → List Bytes → Bool
all_plain p [] = true
all_plain p (w ∷ ws) = all_bytes (λ c. not (p c)) w && all_plain p ws

all_plain-cons_first :
    (p : ℕ → Bool) (c : ℕ) (ws : List Bytes)
    → p c ≡ false
    → all_plain p ws ≡ true
    → all_plain p (cons_first c ws) ≡ true
all_plain-cons_first p c [] h k = ground arith
all_plain-cons_first p c (w ∷ ws) h k = ground arith

all_plain-split_if : (p : ℕ → Bool) (s : Bytes) → all_plain p (split_if p s) ≡ true
unfolding split_if
all_plain-split_if p [] = refl
all_plain-split_if p (c ∷ s) =
    ground (arith, all_plain-split_if p s, all_plain-cons_first p c (split_if p s))

are_words-drop_empty :
    (ws : List Bytes) → all_plain is_space ws ≡ true → are_words (drop_empty ws) ≡ true
are_words-drop_empty [] h = refl
are_words-drop_empty ([] ∷ ws) h = are_words-drop_empty ws h
are_words-drop_empty ((c ∷ w) ∷ ws) h = ground (arith, are_words-drop_empty ws)

pub are_words-fields : (s : Bytes) → are_words (fields s) ≡ true
unfolding fields
are_words-fields s = are_words-drop_empty (split_if is_space s) (all_plain-split_if is_space s)

split_if-append :
    (p : ℕ → Bool) (w s : Bytes) (c : ℕ)
    → all_bytes (λ c. not (p c)) w ≡ true
    → p c ≡ true
    → split_if p (w ++ (c ∷ s)) ≡ w ∷ split_if p s
unfolding split_if
split_if-append p [] s c h k = rw k refl
split_if-append p (b ∷ w) s c h k =
    let plain : p b ≡ false = ground arith in
    let rest : all_bytes (λ c. not (p c)) w ≡ true = ground arith in
    rw plain (ap (cons_first b) (split_if-append p w s c rest k))

-- joined words are found again
pub fields-join : (ws : List Bytes) → are_words ws ≡ true → fields (join ws) ≡ ws
unfolding fields join split_if
fields-join [] h = refl
fields-join ([] ∷ ws) h = ground arith
fields-join ((c ∷ w) ∷ []) h = ap drop_empty (split_if-one is_space (c ∷ w) (one_of h))
  where
    one_of : all_bytes in_word (c ∷ w) && true ≡ true → all_bytes in_word (c ∷ w) ≡ true
    one_of h = ground arith
fields-join ((c ∷ w) ∷ v ∷ ws) h =
    ap drop_empty (split_if-append is_space (c ∷ w) (join (v ∷ ws)) 32 (first_of h) refl)
    ∙ ap (λ l. (c ∷ w) ∷ l) (fields-join (v ∷ ws) (rest_of h))
  where
    first_of :
        all_bytes in_word (c ∷ w) && are_words (v ∷ ws) ≡ true → all_bytes in_word (c ∷ w) ≡ true
    first_of h = ground arith

    rest_of : all_bytes in_word (c ∷ w) && are_words (v ∷ ws) ≡ true → are_words (v ∷ ws) ≡ true
    rest_of h = ground arith
