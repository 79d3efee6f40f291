-- ===== src/Token/Covered.antt =====
-- What the scope and the lists of a token cover, in words that the source's tests do not use.
use Prim.Native.String.{◌++◌ as cat}
use text.Mathlib.Text.{◌==◌ as str_eq, starts_with}
use text.Mathlib.TextEquality.{starts_with_iff}
use text.Mathlib.TextLemmas.{cons-append}
use Prim.Native.Char.{Char}
use mini_router.Prelude.{
  ◌≤◌, ◌≡◌, refl, Bool, true, false, ◌||◌, String, Option, none, some, List, [], ◌∷◌, ap, ◌∙◌, sym,
  subst, arith, eq_iff, Bool-cases, inl, inr, ◌⊎◌, IsIn,
}
use mini_router.Apply.Command.{trim_suffix}
use mini_router.Token.{
  ApiToken, Outside, scope_level, has_suffix, action_match, any_match, is_none_left, covers,
  permits, in_any, from_ok,
}

-- the pattern is the star, the action, or the group of the actions that start with its words
abbrev pub Fits : String → String → Type 0
Fits pat action =
    (pat ≡ "*")
    ⊎ ((pat ≡ action)
        ⊎ ((group rest : String) × (pat ≡ cat group ".*") × (action ≡ cat (cat group ".") rest)))

-- the scopes that may do what needs `need`; a need that is none of the three words binds no scope
abbrev pub InScope : String → String → Type 0
InScope need scope =
    ((need ≡ "read") × IsIn scope ("read" ∷ "operate" ∷ "apply" ∷ []))
    ⊎ (((need ≡ "operate") × IsIn scope ("operate" ∷ "apply" ∷ []))
        ⊎ (((need ≡ "apply") × (scope ≡ "apply"))
            ⊎ ((str_eq need "read" ≡ false)
                × (str_eq need "operate" ≡ false)
                × (str_eq need "apply" ≡ false))))

has_suffix-group :
    (pat : String) → has_suffix pat ".*" ≡ true → (group : String) × (pat ≡ cat group ".*")
unfolding has_suffix
has_suffix-group String.[] e = cc
has_suffix-group (String.◌∷◌ c s) e = elim (Bool-cases (str_eq (String.◌∷◌ c s) ".*")) [
  | inl whole ↦ (String.[], (eq_iff (String.◌∷◌ c s) ".*").0 whole)
  | inr part ↦
      let (group, k) = has_suffix-group s (ground arith) in
      (String.◌∷◌ c group, ap (λ t. String.◌∷◌ c t) k ∙ sym (cons-append c group ".*"))
]

tail_nil : (c : Char) (s : String) → String.◌∷◌ c s ≡ "*" → s ≡ String.[]
tail_nil c s e = ap (λ t. elim t [ String.[] ↦ String.[] | String.◌∷◌ d u ↦ u ]) e

group_full : (group : String) → cat group ".*" ≡ String.[] → ⊥
group_full group e = cons_full group (sym e)
  where
    cons_full : (group : String) → String.[] ≡ cat group ".*" → ⊥
    cons_full String.[] k = cc
    cons_full (String.◌∷◌ c g) k = differ (k ∙ cons-append c g ".*")
      where
        differ : String.[] ≡ String.◌∷◌ c (cat g ".*") → ⊥
        differ k = cc

longer : (c : Char) (group : String) → str_eq (String.◌∷◌ c (cat group ".*")) "*" ≡ true → ⊥
longer c group e =
    group_full group
      (tail_nil c (cat group ".*") ((eq_iff (String.◌∷◌ c (cat group ".*")) "*").0 e))

trim_suffix-cons :
    (c : Char) (s : String)
    → str_eq (String.◌∷◌ c s) "*" ≡ false
    → trim_suffix "*" (String.◌∷◌ c s) ≡ String.◌∷◌ c (trim_suffix "*" s)
unfolding trim_suffix
trim_suffix-cons c s e = rw e refl

trimmed_dot_star : trim_suffix "*" ".*" ≡ "."
unfolding trim_suffix
trimmed_dot_star = refl

trim_suffix-group : (group : String) → trim_suffix "*" (cat group ".*") ≡ cat group "."
trim_suffix-group String.[] = trimmed_dot_star
trim_suffix-group (String.◌∷◌ c group) =
    ap (trim_suffix "*") (cons-append c group ".*")
    ∙ trim_suffix-cons c (cat group ".*") (not_star (Bool-cases _))
    ∙ ap (λ t. String.◌∷◌ c t) (trim_suffix-group group)
    ∙ sym (cons-append c group ".")
  where
    not_star :
        (str_eq (String.◌∷◌ c (cat group ".*")) "*" ≡ true)
          ⊎ (str_eq (String.◌∷◌ c (cat group ".*")) "*" ≡ false)
        → str_eq (String.◌∷◌ c (cat group ".*")) "*" ≡ false
    not_star (inl e) = absurd (longer c group e)
    not_star (inr e) = e

or_else : (a b : Bool) → a || b ≡ true → a ≡ false → b ≡ true
or_else a b e f = ground arith

action_match-Fits : (pat action : String) → action_match pat action ≡ true → Fits pat action
unfolding action_match
action_match-Fits pat action e = elim (Bool-cases (str_eq pat "*")) [
  | inl star ↦ inl ((eq_iff pat "*").0 star)
  | inr other ↦ elim (Bool-cases (str_eq pat action)) [
    | inl same ↦ inr (inl ((eq_iff pat action).0 same))
    | inr differ ↦
        let suffix : has_suffix pat ".*" ≡ true = ground arith in
        let start : starts_with action (trim_suffix "*" pat) ≡ true = ground arith in
        let (group, k) = has_suffix-group pat suffix in
        let trimmed : trim_suffix "*" pat ≡ cat group "." =
          ap (trim_suffix "*") k ∙ trim_suffix-group group in
        let (rest, r) =
          (starts_with_iff action (cat group ".")).0
            (subst (λ t. starts_with action t ≡ true) trimmed start) in
        inr (inr (group, rest, k, sym r))
  ]
]

any_match-Fits :
    (l : List String) (action : String)
    → any_match l action ≡ true
    → (pat : String) × IsIn pat l × Fits pat action
unfolding any_match
any_match-Fits [] action e = cc
any_match-Fits (a ∷ l) action e = elim (Bool-cases (action_match a action)) [
  | inl hit ↦ (a, inl refl, action_match-Fits a action hit)
  | inr miss ↦ let (pat, k, fits) = any_match-Fits l action (ground arith) in (pat, inr k, fits)
]

none_left : (l : List String) → is_none_left l ≡ true → l ≡ []
none_left [] e = refl
none_left (x ∷ l) e = cc

scope_level-InScope :
    (need scope : String) → scope_level need ≤ scope_level scope → InScope need scope
unfolding scope_level
scope_level-InScope need scope le = ground (
  arith,
  eq_iff need "read",
  eq_iff need "operate",
  eq_iff need "apply",
  eq_iff scope "read",
  eq_iff scope "operate",
  eq_iff scope "apply",
)

module _ (o : Outside) where
  -- the action is known, the scope reaches it, and the list of actions, if there is one, has it
  abbrev pub MayDo : ApiToken → String → Type 0
  MayDo t action =
      ((need : String) × (o.token_actions action ≡ some need) × InScope need t.scope)
      × ((t.allow ≡ []) ⊎ ((pat : String) × IsIn pat t.allow × Fits pat action))

  -- the list of networks is empty, or one of them has the address
  abbrev pub ComesFrom : ApiToken → String → Type 0
  ComesFrom t remote =
      (t.from ≡ []) ⊎ ((net : String) × IsIn net t.from × (o.contains net remote ≡ true))

  in_any-IsIn :
      (l : List String) (remote : String)
      → in_any o l remote ≡ true
      → (net : String) × IsIn net l × (o.contains net remote ≡ true)
  unfolding in_any
  in_any-IsIn [] remote e = cc
  in_any-IsIn (f ∷ l) remote e = elim (Bool-cases (o.contains f remote)) [
    | inl hit ↦ (f, inl refl, hit)
    | inr miss ↦ let (net, k, has) = in_any-IsIn l remote (ground arith) in (net, inr k, has)
  ]

  pub from_ok-ComesFrom :
      (t : ApiToken) (remote : String) → from_ok o t remote ≡ true → ComesFrom t remote
  unfolding from_ok
  from_ok-ComesFrom t remote e = elim (Bool-cases (is_none_left t.from)) [
    | inl empty ↦ inl (none_left t.from empty)
    | inr full ↦ inr (in_any-IsIn t.from remote (or_else (is_none_left t.from) _ e full))
  ]

  covers-MayDo :
      (t : ApiToken) (action : String) (n : Option String)
      → o.token_actions action ≡ n
      → covers o t action n ≡ true
      → MayDo t action
  unfolding covers
  covers-MayDo t action none k e = cc
  covers-MayDo t action (some need) k e =
      let le : scope_level need ≤ scope_level t.scope = ground arith in
      let listed : is_none_left t.allow || any_match t.allow action ≡ true = ground arith in
      (
        (need, k, scope_level-InScope need t.scope le),
        elim (Bool-cases (is_none_left t.allow)) [
          | inl empty ↦ inl (none_left t.allow empty)
          | inr full ↦
              inr (any_match-Fits t.allow action (or_else (is_none_left t.allow) _ listed full))
        ],
      )

  pub permits-MayDo : (t : ApiToken) (action : String) → permits o t action ≡ true → MayDo t action
  unfolding permits
  permits-MayDo t action e = covers-MayDo t action (o.token_actions action) refl e
