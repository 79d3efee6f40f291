-- ===== src/Token/Granted.antt =====
-- What a granted request has shown.
use text.Mathlib.Text.{◌==◌ as str_eq, starts_with}
use mini_router.Prelude.{
  ℕ, ◌<◌, ◌≡◌, refl, Bool, true, false, not, ◌||◌, String, Option, none, some, List, [], ◌∷◌,
  if◌then◌else◌, ltb, arith, eq_iff, inl, inr, ◌⊎◌, ap, ◌∙◌,
}
use mini_router.Risk.{after_prefix}
use mini_router.Token.{
  ApiToken, ApiReq, Outside, Auth, granted, locked_out, permits, from_ok, find_hash, find_token,
  is_expired, check_token, presented_token, token_auth,
}
use mini_router.Token.Covered.{ComesFrom, MayDo, from_ok-ComesFrom, permits-MayDo}

if_some :
    (b : Bool) (x : Option ApiToken) (t : ApiToken)
    → (if b then x else none) ≡ some t
    → (b ≡ true) × (x ≡ some t)
if_some true x t e = (refl, e)
if_some false x t e = cc

unless_some :
    (b : Bool) (x : Option ApiToken) (t : ApiToken) → (if b then none else x) ≡ some t → x ≡ some t
unless_some true x t e = cc
unless_some false x t e = e

unless_locked :
    (b : Bool) (x : Auth) (t : ApiToken)
    → (if b then locked_out else x) ≡ granted t
    → (b ≡ false) × (x ≡ granted t)
unless_locked true x t e = cc
unless_locked false x t e = (refl, e)

module _ (o : Outside) where
  -- the token is one of the configured ones and its stored hash is `h`
  abbrev pub IsListed : String → ApiToken → List ApiToken → Type 0
  IsListed h t [] = ⊥
  IsListed h t (u ∷ l) = ((u ≡ t) × (h ≡ o.stored_hash t.name)) ⊎ IsListed h t l

  find_hash-IsListed :
      (h : String) (l : List ApiToken) (found : Option ApiToken) (t : ApiToken)
      → find_hash o h l found ≡ some t
      → (found ≡ some t) ⊎ IsListed h t l
  unfolding find_hash
  find_hash-IsListed h [] found t e = inl e
  find_hash-IsListed h (u ∷ l) found t e =
      by_hash (str_eq h (o.stored_hash u.name)) refl (find_hash-IsListed h l (some u) t)
        (find_hash-IsListed h l found t) e
    where
      same_token : some u ≡ some t → u ≡ t
      same_token e = ap (λ x. elim x [ none ↦ u | some y ↦ y ]) e

      first : str_eq h (o.stored_hash u.name) ≡ true → u ≡ t → h ≡ o.stored_hash t.name
      first b e =
          (eq_iff h (o.stored_hash u.name)).0 b ∙ ap (λ (x : ApiToken). o.stored_hash x.name) e

      listed_from :
          str_eq h (o.stored_hash u.name) ≡ true
          → (some u ≡ some t) ⊎ IsListed h t l
          → (found ≡ some t) ⊎ IsListed h t (u ∷ l)
      listed_from b (inl k) = inr (inl (same_token k, first b (same_token k)))
      listed_from b (inr k) = inr (inr k)

      later : (found ≡ some t) ⊎ IsListed h t l → (found ≡ some t) ⊎ IsListed h t (u ∷ l)
      later (inl k) = inl k
      later (inr k) = inr (inr k)

      by_hash :
          (b : Bool)
          → str_eq h (o.stored_hash u.name) ≡ b
          → (find_hash o h l (some u) ≡ some t → (some u ≡ some t) ⊎ IsListed h t l)
          → (find_hash o h l found ≡ some t → (found ≡ some t) ⊎ IsListed h t l)
          → (if b then find_hash o h l (some u) else find_hash o h l found) ≡ some t
          → (found ≡ some t) ⊎ IsListed h t (u ∷ l)
      by_hash true b hit miss k = listed_from b (hit k)
      by_hash false b hit miss k = later (miss k)

  -- the token has no expiry, or it is to come
  abbrev pub IsLive : Option ℕ → Type 0
  IsLive none = Unit
  IsLive (some e) = o.now < e

  -- a request that the token may make, now and from there
  abbrev pub Allows : ApiReq → ApiToken → Type 0
  Allows r t = IsLive (o.expiry t.expires) × ComesFrom o t r.remote × MayDo o t r.action

  IsLive-expired : (e : Option ℕ) → is_expired o e ≡ false → IsLive e
  unfolding is_expired
  IsLive-expired none h = tt
  IsLive-expired (some e) h = ground arith

  check_token-granted :
      (r : ApiReq) (x : Option ApiToken) (t : ApiToken)
      → check_token o r x ≡ granted t
      → (x ≡ some t)
        × (is_expired o (o.expiry t.expires) ≡ false)
        × (from_ok o t r.remote ≡ true)
        × (permits o t r.action ≡ true)
  unfolding check_token
  check_token-granted r none t e = ground arith
  check_token-granted r (some u) t e = ground arith

  presented_token-IsListed :
      (auth : String) (l : List ApiToken) (t : ApiToken)
      → presented_token o l auth ≡ some t
      → (starts_with auth "Bearer " ≡ true)
        × IsListed (o.token_hash (o.trim_space (after_prefix "Bearer " auth))) t l
  unfolding presented_token find_token
  presented_token-IsListed auth l t e =
      let (b, k) = if_some (starts_with auth "Bearer ") _ t e in
      let text = o.trim_space (after_prefix "Bearer " auth) in
      let k' = unless_some (not (starts_with text "mrt_") || ltb 256 (o.size text)) _ t k in
      (b, listed _ (find_hash-IsListed (o.token_hash text) l none t k'))
    where
      listed : (h : String) → (none ≡ some t) ⊎ IsListed h t l → IsListed h t l
      listed h (inl e) = cc
      listed h (inr k) = k

-- A request is granted only if its source need not wait, and with a token of the configuration whose
-- stored hash is that of the presented text, which has no expiry or is not expired, has no list of
-- networks or one with the address of the request, whose scope reaches the action, and which has no
-- list of actions or one with a pattern for the action.
pub token_auth-granted :
    (o : Outside) (r : ApiReq) (l : List ApiToken) (t : ApiToken)
    → token_auth o r l ≡ granted t
    → (o.login_wait r.remote ≡ 0)
      × (starts_with r.auth "Bearer " ≡ true)
      × IsListed o (o.token_hash (o.trim_space (after_prefix "Bearer " r.auth))) t l
      × Allows o r t
unfolding token_auth
token_auth-granted o r l t e =
    let (free, k) = unless_locked (ltb 0 (o.login_wait r.remote)) _ t e in
    let (x, live, from, may) = check_token-granted o r _ t k in
    let (b, listed) = presented_token-IsListed o r.auth l t x in
    (
      ground arith,
      b,
      listed,
      (
        IsLive-expired o (o.expiry t.expires) live,
        from_ok-ComesFrom o t r.remote from,
        permits-MayDo o t r.action may,
      ),
    )
