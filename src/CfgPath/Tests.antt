-- ===== src/CfgPath/Tests.antt =====
-- Paths on a simple quoting: between double quotes, where a backslash stands before each double
-- quote and each backslash.
use mini_router.Prelude.{
  ℕ, ◌≡◌, ◌≢◌, refl, Bool, true, false, ◌||◌, Option, none, some, List, [], ◌∷◌, ◌++◌, ◌==◌,
  if◌then◌else◌, length, arith, ltb, ap,
}
use mini_router.Prelude.Bytes.{Bytes, codes}
use mini_router.CfgPath.Syntax.{
  Quoting, PathStep, key, sel, ok, err, out_of_fuel, ident_char, parse_path, fmt_path,
}
use mini_router.CfgPath.Syntax.RoundTrip.{parse_path-fmt_path, IsPath}
use mini_router.CfgPath.Syntax.Total.{parse_path_total}

abbrev is_special : ℕ → Bool
is_special b = b == b'"' || b == b'\\'

escaped : Bytes → Bytes
escaped [] = b'"' ∷ []
escaped (b ∷ v) = let rest = escaped v in if is_special b then b'\\' ∷ b ∷ rest else b ∷ rest

abbrev with_byte : ℕ → Option Bytes → Option Bytes
with_byte b none = none
with_byte b (some v) = some (b ∷ v)

-- the text up to the closing quote; the flag is set behind a backslash
closed : Bool → Bytes → Option Bytes
closed e [] = none
closed true (b ∷ s) = with_byte b (closed false s)
closed false (b ∷ s) =
    let plain = with_byte b (closed false s) in
    let after = with_byte b (closed true s) in
    if b == b'"' then some (b ∷ []) else if b == b'\\' then after else plain

unescaped : Bool → Bytes → Option Bytes
unescaped e [] = none
unescaped true (b ∷ s) = with_byte b (unescaped false s)
unescaped false (b ∷ s) =
    let plain = with_byte b (unescaped false s) in
    let after = unescaped true s in
    if b == b'"' then some [] else if b == b'\\' then after else plain

quoted_start : Bytes → Option Bytes
quoted_start [] = none
quoted_start (b ∷ s) = if b == b'"' then with_byte b (closed false s) else none

unquoted : Bytes → Option Bytes
unquoted [] = none
unquoted (b ∷ s) = if b == b'"' then unescaped false s else none

closed-escaped : (v rest : Bytes) → closed false (escaped v ++ rest) ≡ some (escaped v)
unfolding closed escaped
closed-escaped [] rest = refl
closed-escaped (b ∷ v) rest = ground (arith, closed-escaped v rest)

unescaped-escaped : (v : Bytes) → unescaped false (escaped v) ≡ some v
unfolding unescaped escaped
unescaped-escaped [] = refl
unescaped-escaped (b ∷ v) = ground (arith, unescaped-escaped v)

with_byte_pos :
    (b : ℕ) (o : Option Bytes) (q : Bytes) → with_byte b o ≡ some q → ltb 0 (length q) ≡ true
with_byte_pos b none q e = cc
with_byte_pos b (some v) [] e = cc
with_byte_pos b (some v) (c ∷ q) e = ground arith

quoted_start_pos : (s q : Bytes) → quoted_start s ≡ some q → ltb 0 (length q) ≡ true
unfolding quoted_start
quoted_start_pos [] q e = cc
quoted_start_pos (b ∷ s) q e = ground (arith, with_byte_pos b (closed false s) q)

nil : escaped [] ≡ b'"' ∷ []
unfolding escaped
nil = refl

start : (v rest : Bytes) → quoted_start ((b'"' ∷ escaped v) ++ rest) ≡ some (b'"' ∷ escaped v)
unfolding quoted_start
start v rest = rw (closed-escaped v rest) refl

whole : (v : Bytes) → unquoted (b'"' ∷ escaped v) ≡ some v
unfolding unquoted
whole v = unescaped-escaped v

abbrev simple : Quoting
simple = record {
  quote = λ v. b'"' ∷ escaped v;
  quoted_prefix = quoted_start;
  unquote = unquoted;
  trimmed = λ v. true;
  quote_head = λ v. (escaped v, refl);
  quote_nil = ap (λ s. b'"' ∷ s) nil;
  quoted_prefix-quote = λ v rest. start v rest;
  unquote-quote = whole;
  quoted_prefix_pos = quoted_start_pos;
}

-- wan[iface=eth0]."a b"
abbrev wan_path : List PathStep
wan_path = key (codes "wan") ∷ sel (codes "iface") (codes "eth0") ∷ key (codes "a b") ∷ []

wan_spellable : IsPath wan_path
unfolding ident_char
wan_spellable = (refl, (tt, tt))

parse_path-fmt_path_example : parse_path simple (fmt_path simple wan_path) ≡ ok wan_path
parse_path-fmt_path_example = parse_path-fmt_path simple wan_path wan_spellable

parse_path_total_example : parse_path simple (codes "wan[0].mtu") ≢ err out_of_fuel
parse_path_total_example = parse_path_total simple (codes "wan[0].mtu")
