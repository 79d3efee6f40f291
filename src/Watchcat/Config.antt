-- ===== src/Watchcat/Config.antt =====
-- The settings of the watchcat: wcDefaults and wcValidate of mr/mod_sys_watchcat.go, for times that
-- are not negative.
pub mod Limits
pub mod Tests
use mini_router.Prelude.{
  ℕ, Bool, true, false, not, ◌&&◌, ◌||◌, String, List, [], ◌∷◌, ◌++◌, if◌then◌else◌, ltb, ◌==◌,
  length,
}

pub record WatchcatConf : Type 0 where
  pub enabled : Bool
  pub after : ℕ
  pub reboot_hours : ℕ
  pub targets : List String

pub data WcError : Type 0 where
  needs_router bad_after bad_hours too_many_targets : WcError
  bad_target : String → WcError

-- wcDefaults
unfoldable pub wc_defaults : WatchcatConf → WatchcatConf
wc_defaults w = if not w.enabled then w else record w {
  after = if w.after == 0 then 10 else w.after;
  reboot_hours = if w.reboot_hours == 0 then 6 else w.reboot_hours;
}

unfoldable pub error_if : Bool → WcError → List WcError
error_if true e = e ∷ []
error_if false e = []

unfoldable pub target_errors : (String → Bool) → List String → List WcError
target_errors is_ip4 [] = []
target_errors is_ip4 (t ∷ l) = error_if (not (is_ip4 t)) (bad_target t) ++ target_errors is_ip4 l

abbrev pub is_nil : List String → Bool
is_nil [] = true
is_nil (x ∷ l) = false

-- wcValidate; `router_mode` is routerMode, `wan` the names of the WANs, `is_ip4` is netip.ParseAddr
-- and Is4
unfoldable pub wc_validate : Bool → List String → (String → Bool) → WatchcatConf → List WcError
wc_validate router_mode wan is_ip4 w =
    if not w.enabled
    then []
    else error_if (not router_mode || is_nil wan) needs_router
      ++ (error_if (ltb w.after 3 || ltb 240 w.after) bad_after
          ++ (error_if (ltb w.reboot_hours 1 || ltb 168 w.reboot_hours) bad_hours
              ++ (error_if (ltb 4 (length w.targets)) too_many_targets
                  ++ target_errors is_ip4 w.targets)))
