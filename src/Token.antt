-- ===== src/Token.antt =====
-- API tokens of mr/api_token.go: actionMatch, permits, fromOK, findToken and tokenAuth. Hashes, times
-- and addresses come from Go's library and are the record Outside; so do the counters of failed
-- logins, of which an attempt sees an answer.
pub mod Covered
pub mod Granted
pub mod Tests
use text.Mathlib.Text.{◌==◌ as str_eq, starts_with}
use mini_router.Prelude.{
  ℕ, Bool, true, false, not, ◌&&◌, ◌||◌, String, Option, none, some, List, [], ◌∷◌, if◌then◌else◌,
  leb, ltb,
}
use mini_router.Apply.Command.{trim_suffix, with_suffix}
use mini_router.Risk.{after_prefix}

pub record ApiToken : Type 0 where
  pub name : String
  pub scope : String
  pub allow : List String
  pub from : List String
  pub expires : String

pub record ApiReq : Type 0 where
  pub remote : String
  pub auth : String
  pub action : String

pub record Outside : Type 0 where
  -- sha256, the stored hash of a token's name, len, strings.TrimSpace
  pub token_hash : String → String
  pub stored_hash : String → String
  pub size : String → ℕ
  pub trim_space : String → String
  -- time.ParseInLocation and time.Parse on `expires`; none: no expiry
  pub expiry : String → Option ℕ
  pub now : ℕ
  -- the address of the request lies in the network
  pub contains : String → String → Bool
  -- loginWait in seconds; loginBegin's first result
  pub login_wait : String → ℕ
  pub login_begin : String → Bool
  -- tokenActions with what the modules register: the scope that an action needs
  pub token_actions : String → Option String

pub data Auth : Type 0 where
  granted : ApiToken → Auth
  locked_out bad_token expired wrong_address unavailable not_permitted : Auth

unfoldable pub scope_level : String → ℕ
scope_level s =
    if str_eq s "read"
    then 1
    else if str_eq s "operate"
    then 2
    else if str_eq s "apply"
    then 3
    else 0

unfoldable pub has_suffix : String → String → Bool
has_suffix String.[] suffix = str_eq String.[] suffix
has_suffix (String.◌∷◌ c s) suffix =
    let rest = has_suffix s suffix in str_eq (String.◌∷◌ c s) suffix || rest

unfoldable pub action_match : String → String → Bool
action_match pat action =
    str_eq pat "*"
    || str_eq pat action
    || (has_suffix pat ".*" && starts_with action (trim_suffix "*" pat))

unfoldable pub any_match : List String → String → Bool
any_match [] action = false
any_match (a ∷ l) action = let rest = any_match l action in action_match a action || rest

abbrev pub is_none_left : List String → Bool
is_none_left [] = true
is_none_left (x ∷ l) = false

module _ (o : Outside) where
  covers : ApiToken → String → Option String → Bool
  covers t action none = false
  covers t action (some need) =
      leb (scope_level need) (scope_level t.scope)
      && (is_none_left t.allow || any_match t.allow action)

  -- permits
  unfoldable pub permits : ApiToken → String → Bool
  unfolding covers
  permits t action = covers t action (o.token_actions action)

  in_any : List String → String → Bool
  in_any [] remote = false
  in_any (f ∷ l) remote = let rest = in_any l remote in o.contains f remote || rest

  -- fromOK
  unfoldable pub from_ok : ApiToken → String → Bool
  unfolding in_any
  from_ok t remote = is_none_left t.from || in_any t.from remote

  -- the loop of findToken: the last token with the hash
  find_hash : String → List ApiToken → Option ApiToken → Option ApiToken
  find_hash h [] found = found
  find_hash h (t ∷ l) found =
      let hit = find_hash h l (some t) in
      let miss = find_hash h l found in if str_eq h (o.stored_hash t.name) then hit else miss

  -- findToken
  unfoldable pub find_token : List ApiToken → String → Option ApiToken
  unfolding find_hash
  find_token tokens presented =
      if not (starts_with presented "mrt_") || ltb 256 (o.size presented)
      then none
      else find_hash (o.token_hash presented) tokens none

  is_expired : Option ℕ → Bool
  is_expired none = false
  is_expired (some e) = leb e o.now

  check_token : ApiReq → Option ApiToken → Auth
  check_token r none = if o.login_begin r.remote then bad_token else locked_out
  check_token r (some t) =
      if is_expired (o.expiry t.expires)
      then expired
      else if not (from_ok t r.remote)
      then wrong_address
      else if not (permits t r.action)
      then elim (o.token_actions r.action) [ none ↦ unavailable | some s ↦ not_permitted ]
      else granted t

  presented_token : List ApiToken → String → Option ApiToken
  presented_token tokens auth =
      if starts_with auth "Bearer "
      then find_token tokens (o.trim_space (after_prefix "Bearer " auth))
      else none

  -- tokenAuth
  unfoldable pub token_auth : ApiReq → List ApiToken → Auth
  unfolding is_expired check_token presented_token
  token_auth r tokens =
      if ltb 0 (o.login_wait r.remote)
      then locked_out
      else check_token r (presented_token tokens r.auth)
