-- ===== src/CfgPath/Syntax/Rounds.antt =====
-- One round of the parser reads one printed step.
use mini_router.Prelude.{
  ℕ, ◌≡◌, refl, Bool, true, false, not, ◌||◌, [], ◌∷◌, ◌++◌, append_assoc, arith, ◌==◌, drop-append,
  if◌then◌else◌, Bool-cases, inl, inr, subst,
}
use mini_router.Prelude.Bytes.{
  Bytes, codes, has_byte, span, all_bytes, span-append, all_bytes-has_byte, lacks-all_bytes, stops,
}
use mini_router.CfgPath.Syntax.{
  Quoting, PathStep, key, sel, ok, ident_char, key_char, is_empty, quoted, sel_name, sel_value,
  close_sel, parse_sel, parse_key, round, plain_char, plain_key, fmt_key, fmt_sel, fmt_step, starts,
}

-- The selector names that the syntax can spell: bytes of identifiers only.
abbrev pub IsSpellable : PathStep → Type 0
IsSpellable (key k) = Unit
IsSpellable (sel k v) = all_bytes ident_char k ≡ true

-- The first step of a path is a key.
abbrev pub IsKeyIf : Bool → PathStep → Type 0
IsKeyIf true (sel k v) = ⊥
IsKeyIf _ _ = Unit

-- The text behind a step: nothing, a dot or a bracket.
abbrev pub follows : Bytes → Bool
follows [] = true
follows (c ∷ s) = c == b'.' || c == b'['

plain-key_char : (c : ℕ) → plain_char c ≡ true → key_char c ≡ true
unfolding plain_char key_char
plain-key_char c h = elim (Bool-cases (has_byte c (codes ".[]\"= \t"))) [
  | inl m ↦ cc (h, all_bytes-has_byte (λ x. not (plain_char x)) c (codes ".[]\"= \t") refl m)
  | inr m ↦ rw m
]

plain-key_chars : (k : Bytes) → plain_key k ≡ true → all_bytes key_char k ≡ true
unfolding plain_key
plain-key_chars [] h = refl
plain-key_chars (c ∷ k) h = ground (arith, plain-key_chars k, plain-key_char c)

module _ (q : Quoting) where
  starts-quote : (v rest : Bytes) → starts b'"' (q.quote v ++ rest) ≡ true
  starts-quote v rest = let (r, e) = q.quote_head v in rw e refl

  quoted-quote : (v rest : Bytes) → quoted q (q.quote v ++ rest) ≡ ok (v, rest)
  unfolding quoted
  quoted-quote v rest =
      rw (quoted, q.quoted_prefix-quote v rest, q.unquote-quote v, drop-append (q.quote v) rest)

  follows-stops : (rest : Bytes) → follows rest ≡ true → stops key_char rest ≡ true
  unfolding key_char
  follows-stops [] h = refl
  follows-stops (c ∷ rest) h = ground arith

  key_char-ne-quote : (c : ℕ) → key_char c ≡ true → (c == b'"') ≡ false
  unfolding key_char
  key_char-ne-quote c h = ground arith

  quoted-nil : (rest : Bytes) → quoted q (b'"' ∷ b'"' ∷ rest) ≡ ok ([], rest)
  quoted-nil rest =
      subst (λ x. quoted q (x ++ rest) ≡ ok ([], rest)) q.quote_nil (quoted-quote [] rest)

  parse_key-plain :
      (c : ℕ) (k rest : Bytes)
      → plain_key (c ∷ k) ≡ true
      → follows rest ≡ true
      → parse_key q (c ∷ k ++ rest) ≡ ok (key (c ∷ k), rest)
  unfolding parse_key plain_key
  parse_key-plain c k rest y h = ground (
    arith,
    plain-key_char c,
    key_char-ne-quote c,
    plain-key_chars k,
    span-append key_char (c ∷ k) rest,
    follows-stops rest,
  )

  parse_key-fmt_key :
      (k rest : Bytes) → follows rest ≡ true → parse_key q (fmt_key q k ++ rest) ≡ ok (key k, rest)
  unfolding fmt_key
  parse_key-fmt_key [] rest h = unfold parse_key plain_key in rw (quoted-nil rest)
  parse_key-fmt_key (c ∷ k) rest h = elim (Bool-cases (plain_key (c ∷ k))) [
    | inr n ↦ rw n (unfold parse_key in rw (starts-quote (c ∷ k) rest, quoted-quote (c ∷ k) rest))
    | inl y ↦ rw y (parse_key-plain c k rest y h)
  ]

  -- the name of a selector is read back
  sel_name-named :
      (k t : Bytes)
      → all_bytes ident_char k ≡ true
      → is_empty k ≡ false
      → sel_name q (k ++ b'=' ∷ t) ≡ (k, t)
  unfolding sel_name
  sel_name-named [] t h e = cc
  sel_name-named (c ∷ k) t h e =
      rw (span-append ident_char (c ∷ k) (b'=' ∷ t) h (unfold ident_char in refl))

  -- a value without = in front of the bracket is not read as a name
  span-lacks :
      (v t : Bytes)
      → has_byte b'=' v ≡ false
      → starts b'=' (span ident_char (v ++ b']' ∷ t)).1 ≡ false
  unfolding span ident_char
  span-lacks [] t h = refl
  span-lacks (c ∷ v) t h = ground (arith, span-lacks v t)

  sel_name-lacks :
      (v t : Bytes) → has_byte b'=' v ≡ false → sel_name q (v ++ b']' ∷ t) ≡ ([], v ++ b']' ∷ t)
  unfolding sel_name
  sel_name-lacks v t h = ground (arith, span-lacks v t h)

  sel_name-quote : (v t : Bytes) → sel_name q (q.quote v ++ t) ≡ ([], q.quote v ++ t)
  unfolding sel_name span ident_char
  sel_name-quote v t = let (r, e) = q.quote_head v in rw e refl

  sel_value-quote : (v t : Bytes) → sel_value q (q.quote v ++ t) ≡ ok (v, t)
  unfolding sel_value
  sel_value-quote v t = rw (starts-quote v t, quoted-quote v t)

  sel_value-plain :
      (v t : Bytes)
      → is_empty v ≡ false
      → has_byte b']' v ≡ false
      → has_byte b'"' v ≡ false
      → sel_value q (v ++ b']' ∷ t) ≡ ok (v, b']' ∷ t)
  unfolding sel_value
  sel_value-plain [] t e h n = cc
  sel_value-plain (c ∷ v) t e h n =
      rw
        (span-append (λ x. not (x == b']')) (c ∷ v) (b']' ∷ t) (lacks-all_bytes b']' (c ∷ v) h)
          refl)
        (ground arith)

  sel_value-fmt_sel : (v t : Bytes) → sel_value q (fmt_sel q v ++ b']' ∷ t) ≡ ok (v, b']' ∷ t)
  unfolding fmt_sel
  sel_value-fmt_sel v t = ground (arith, sel_value-quote v (b']' ∷ t), sel_value-plain v t)

  sel_name-fmt_sel :
      (v t : Bytes) → sel_name q (fmt_sel q v ++ b']' ∷ t) ≡ ([], fmt_sel q v ++ b']' ∷ t)
  unfolding fmt_sel
  sel_name-fmt_sel v t = ground (arith, sel_name-quote v (b']' ∷ t), sel_name-lacks v t)

  -- the printed selector behind its bracket, with the text that follows
  parse_sel-fmt :
      (k v rest : Bytes)
      → all_bytes ident_char k ≡ true
      → parse_sel q
          (((if is_empty k then [] else k ++ b'=' ∷ []) ++ (fmt_sel q v ++ b']' ∷ [])) ++ rest)
        ≡ ok (sel k v, rest)
  unfolding parse_sel close_sel
  parse_sel-fmt [] v rest h =
      simp append_assoc (rw (sel_name-fmt_sel v rest, sel_value-fmt_sel v rest))
  parse_sel-fmt (c ∷ k) v rest h =
      let regroup : ((c ∷ k ++ b'=' ∷ []) ++ (fmt_sel q v ++ b']' ∷ [])) ++ rest
          ≡ c ∷ k ++ b'=' ∷ (fmt_sel q v ++ b']' ∷ rest) =
        simp append_assoc in
      rw regroup
        (rw (sel_name-named (c ∷ k) (fmt_sel q v ++ b']' ∷ rest) h refl, sel_value-fmt_sel v rest))

  -- One round of the parser reads one printed step, whatever follows it.
  pub round-fmt_step :
      (first : Bool) (st : PathStep) (rest : Bytes)
      → IsSpellable st
      → IsKeyIf first st
      → follows rest ≡ true
      → round q first (fmt_step q first st ++ rest) ≡ ok (st, rest)
  unfolding round fmt_step
  round-fmt_step true (key k) rest w f h = parse_key-fmt_key k rest h
  round-fmt_step false (key k) rest w f h = parse_key-fmt_key k rest h
  round-fmt_step true (sel k v) rest w f h = elim f [ ]
  round-fmt_step false (sel k v) rest w f h = parse_sel-fmt k v rest w
