-- ===== src/Token/Tests.antt =====
-- A token for reading, from the LAN.
use text.Mathlib.Text.{◌==◌ as str_eq, starts_with}
use mini_router.Prelude.{◌≡◌, refl, true, none, some, [], ◌∷◌, if◌then◌else◌}
use mini_router.Apply.Command.{trim_suffix}
use mini_router.Token.{
  ApiToken, ApiReq, Outside, granted, token_auth, permits, from_ok, find_token, scope_level,
  action_match, any_match, has_suffix,
}
use mini_router.Token.Granted.{token_auth-granted, IsListed, Allows}

abbrev reader : ApiToken
reader = record {
  name = "grafana";
  scope = "read";
  allow = "mon.*" ∷ [];
  from = "192.168.1.0/24" ∷ [];
  expires = "2027-01-01";
}

abbrev home : Outside
home = record {
  token_hash = λ s. s;
  stored_hash = λ n. "mrt_secret";
  size = λ s. 10;
  trim_space = λ s. s;
  expiry = λ s. some 2000;
  now = 1000;
  contains = λ f a. starts_with a "192.168.1.";
  login_wait = λ a. 0;
  login_begin = λ a. true;
  token_actions = λ a. if str_eq a "mon.cpu" then some "read" else none;
}

abbrev request : ApiReq
request = record { remote = "192.168.1.20"; auth = "Bearer mrt_secret"; action = "mon.cpu" }

is_granted : token_auth home request (reader ∷ []) ≡ granted reader
unfolding token_auth permits from_ok find_token scope_level action_match any_match has_suffix
    trim_suffix
is_granted = refl

token_auth-granted_example :
    (home.login_wait request.remote ≡ 0)
    × (starts_with request.auth "Bearer " ≡ true)
    × IsListed home "mrt_secret" reader (reader ∷ [])
    × Allows home request reader
token_auth-granted_example = token_auth-granted home request (reader ∷ []) reader is_granted
