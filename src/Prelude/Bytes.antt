-- ===== src/Prelude/Bytes.antt =====
-- Go strings that the source walks byte by byte: lists of byte values.
use Prim.Native.Nat.{ℕ, ◌+◌}
use Prim.Native.Char.{code}
use Prim.Native.String.{String}
use mathlib.Core.Bool.{Bool, true, false, not, ◌&&◌, ◌||◌}
use mathlib.Core.List.{List, [], ◌∷◌, ◌++◌}
use mathlib.Core.Path.{◌≡◌, refl}
use native.Mathlib.Omega.{arith}
use mini_router.Prelude.Tests.{◌==◌}
use mini_router.Prelude.Lists.{length}

abbrev pub Bytes : Type 0
Bytes = List ℕ

-- The code points of a literal; these are its bytes where the text is ASCII.
abbrev pub codes : String → Bytes
codes String.[] = []
codes (String.◌∷◌ c s) = code c ∷ codes s

-- strings.IndexByte(s, b) ≥ 0
abbrev pub has_byte : ℕ → Bytes → Bool
has_byte b [] = false
has_byte b (c ∷ s) = (b == c) || has_byte b s

-- The longest prefix whose bytes satisfy `p`, and what follows it.
unfoldable pub span : (ℕ → Bool) → Bytes → Bytes × Bytes
span p [] = ([], [])
span p (c ∷ s) = let (a, b) = span p s in elim (p c) [ true ↦ (c ∷ a, b) | false ↦ ([], c ∷ s) ]

pub length-span : (p : ℕ → Bool) (s : Bytes) → length (span p s).0 + length (span p s).1 ≡ length s
unfolding span
length-span p [] = omega arith
length-span p (c ∷ s) = ground (arith, length-span p s)

abbrev pub all_bytes : (ℕ → Bool) → Bytes → Bool
all_bytes p [] = true
all_bytes p (c ∷ s) = p c && all_bytes p s

-- A run of bytes that satisfy `p` ends here.
abbrev pub stops : (ℕ → Bool) → Bytes → Bool
stops p [] = true
stops p (c ∷ s) = not (p c)

pub span-append :
    (p : ℕ → Bool) (a rest : Bytes)
    → all_bytes p a ≡ true
    → stops p rest ≡ true
    → span p (a ++ rest) ≡ (a, rest)
unfolding span
span-append p [] [] h e = refl
span-append p [] (c ∷ rest) h e = ground arith
span-append p (c ∷ a) rest h e = ground (arith, span-append p a rest)

-- What holds of every byte of a text holds of the bytes in it.
pub all_bytes-has_byte :
    (p : ℕ → Bool) (c : ℕ) (s : Bytes) → all_bytes p s ≡ true → has_byte c s ≡ true → p c ≡ true
all_bytes-has_byte p c [] h m = absurd_of m
  where
    absurd_of : false ≡ true → p c ≡ true
    absurd_of e = cc
all_bytes-has_byte p c (x ∷ s) h m = ground (arith, all_bytes-has_byte p c s)

-- A byte that is not in a text differs from every byte of it.
pub lacks-all_bytes :
    (b : ℕ) (s : Bytes) → has_byte b s ≡ false → all_bytes (λ c. not (c == b)) s ≡ true
lacks-all_bytes b [] h = refl
lacks-all_bytes b (c ∷ s) h = ground (arith, lacks-all_bytes b s)
