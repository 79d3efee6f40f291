-- ===== src/CfgPath/Syntax.antt =====
-- The syntax of config paths: parsePath, fmtPath, fmtKey and fmtSel of mr/cfgpath.go.
-- A position in the text is the suffix that is left; errors carry their case, not their wording.
mod Rounds
pub mod RoundTrip
pub mod Total
use mini_router.Prelude.{
  ℕ, zero, suc, ◌≡◌, Bool, true, false, not, ◌&&◌, ◌||◌, Option, none, some, List, [], ◌∷◌, ◌++◌,
  ltb, leb, ◌==◌, if◌then◌else◌, length, drop,
}
use mini_router.Prelude.Bytes.{Bytes, codes, has_byte, span}

-- What the code uses of package strconv, and the tests on text that it takes from elsewhere.
pub record Quoting : Type 0 where
  -- strconv.Quote, strconv.QuotedPrefix, strconv.Unquote
  pub quote : Bytes → Bytes
  pub quoted_prefix : Bytes → Option Bytes
  pub unquote : Bytes → Option Bytes
  -- v == strings.TrimSpace(v)
  pub trimmed : Bytes → Bool
  -- a quoted string starts with a double quote; "" is `""`
  pub quote_head : (v : Bytes) → (r : Bytes) × (quote v ≡ b'"' ∷ r)
  pub quote_nil : quote [] ≡ b'"' ∷ b'"' ∷ []
  -- the quoted string at the start of a text ends where it ends
  pub quoted_prefix-quote : (v rest : Bytes) → quoted_prefix (quote v ++ rest) ≡ some (quote v)
  pub unquote-quote : (v : Bytes) → unquote (quote v) ≡ some v
  -- a quoted prefix is not empty
  pub quoted_prefix_pos : (s q : Bytes) → quoted_prefix s ≡ some q → ltb 0 (length q) ≡ true

pub data PathStep : Type 0 where
  key : Bytes → PathStep
  sel : Bytes → Bytes → PathStep

pub data PathError : Type 0 where
  bad_quoted missing_close empty_sel expected_sep empty_key empty_path out_of_fuel : PathError

pub data Parsed {ℓ} (A : Type ℓ) : Type ℓ where
  ok : A → Parsed A
  err : PathError → Parsed A

infixl 5 ◌>>=◌
abbrev pub ◌>>=◌ {ℓ κ} : {A : Type ℓ} {B : Type κ} → Parsed A → (A → Parsed B) → Parsed B
ok a >>= f = f a
err e >>= f = err e

unfoldable pub ident_char : ℕ → Bool
ident_char b =
    b == b'_'
    || b == b'-'
    || (leb b'a' b && leb b b'z')
    || (leb b'A' b && leb b b'Z')
    || (leb b'0' b && leb b b'9')

-- a byte of an unquoted key: none of . [ ] " = space tab
pub key_char : ℕ → Bool
key_char b = not (has_byte b (codes ".[]\"= \t"))

abbrev pub is_empty : Bytes → Bool
is_empty [] = true
is_empty (c ∷ s) = false

abbrev starts : ℕ → Bytes → Bool
starts b [] = false
starts b (c ∷ s) = c == b

module _ (q : Quoting) where
  -- the closure `quoted`
  quoted : Bytes → Parsed (Bytes × Bytes)
  quoted s = elim (q.quoted_prefix s) [
    | none ↦ err bad_quoted
    | some p ↦ elim (q.unquote p) [ none ↦ err bad_quoted | some v ↦ ok (v, drop (length p) s) ]
  ]

  -- the name and the = in front of a selector's value, if they are there
  sel_name : Bytes → Bytes × Bytes
  sel_name s =
      let (name, rest) = span ident_char s in
      if not (is_empty name) && starts b'=' rest then (name, drop 1 rest) else ([], s)

  sel_value : Bytes → Parsed (Bytes × Bytes)
  sel_value s =
      if starts b'"' s
      then quoted s
      else let (v, rest) = span (λ c. not (c == b']')) s in
        if is_empty rest
        then err missing_close
        else if is_empty v
        then err empty_sel
        else ok (v, rest)

  close_sel : Bytes → Bytes → Bytes → Parsed (PathStep × Bytes)
  close_sel k v [] = err missing_close
  close_sel k v (c ∷ rest) = if c == b']' then ok (sel k v, rest) else err missing_close

  -- the part of a round behind `[`
  parse_sel : Bytes → Parsed (PathStep × Bytes)
  parse_sel s = let (k, s') = sel_name s in do (v, rest) ← sel_value s'; close_sel k v rest

  -- the part of a round behind the separating dot
  parse_key : Bytes → Parsed (PathStep × Bytes)
  parse_key s =
      if starts b'"' s
      then (do (k, rest) ← quoted s; ok (key k, rest))
      else let (k, rest) = span key_char s in if is_empty k then err empty_key else ok (key k, rest)

  -- one round of the loop; the flag is `len(out) > 0`
  pub round : Bool → Bytes → Parsed (PathStep × Bytes)
  round true s = parse_key s
  round false [] = err empty_path
  round false (c ∷ s) =
      if c == b'[' then parse_sel s else if c == b'.' then parse_key s else err expected_sep

  pub scan : ℕ → Bool → Bytes → Parsed (List PathStep)
  scan fuel first [] = ok []
  scan zero first (c ∷ s) = err out_of_fuel
  scan (suc fuel) first (c ∷ s) = do
    (st, rest) ← round first (c ∷ s)
    steps ← scan fuel false rest
    ok (st ∷ steps)

  -- parsePath
  pub parse_path : Bytes → Parsed (List PathStep)
  parse_path [] = err empty_path
  parse_path (c ∷ p) = scan (suc (length p)) true (c ∷ p)

-- fmtKey
pub plain_char : ℕ → Bool
unfolding ident_char
plain_char c = ident_char c || c == b':' || c == b'/' || c == b'+'

plain_key : Bytes → Bool
plain_key [] = true
plain_key (c ∷ k) = plain_char c && plain_key k

-- safeText: the bytes of a code point above 0x7f are above 0x7f
safe_text : Bytes → Bool
safe_text [] = true
safe_text (r ∷ s) = not (ltb r 0x20 || r == 0x7f) && safe_text s

module _ (q : Quoting) where
  fmt_key : Bytes → Bytes
  fmt_key k = if not (plain_key k) then q.quote k else if is_empty k then b'"' ∷ b'"' ∷ [] else k

  -- fmtSel
  fmt_sel : Bytes → Bytes
  fmt_sel v =
      if is_empty v
        || has_byte b'[' v
        || has_byte b']' v
        || has_byte b'"' v
        || has_byte b'=' v
        || not (q.trimmed v)
        || not (safe_text v)
      then q.quote v
      else v

  pub fmt_step : Bool → PathStep → Bytes
  fmt_step first (key k) = if first then fmt_key k else b'.' ∷ fmt_key k
  fmt_step first (sel k v) =
      b'[' ∷ ((if is_empty k then [] else k ++ b'=' ∷ []) ++ (fmt_sel v ++ b']' ∷ []))

  pub fmt_steps : Bool → List PathStep → Bytes
  fmt_steps first [] = []
  fmt_steps first (st ∷ steps) = fmt_step first st ++ fmt_steps false steps

  -- fmtPath
  pub fmt_path : List PathStep → Bytes
  fmt_path steps = fmt_steps true steps
