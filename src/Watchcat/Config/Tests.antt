-- ===== src/Watchcat/Config/Tests.antt =====
-- The settings of a router that only switches the watchcat on.
use mini_router.Prelude.{◌≡◌, refl, true, false, [], ◌∷◌}
use mini_router.Watchcat.Config.{
  WatchcatConf, needs_router, wc_defaults, wc_validate, error_if, target_errors,
}

abbrev switched_on : WatchcatConf
switched_on = record { enabled = true; after = 0; reboot_hours = 0; targets = [] }

abbrev completed : WatchcatConf
completed = record { enabled = true; after = 10; reboot_hours = 6; targets = [] }

completed_defaults : wc_defaults switched_on ≡ completed
unfolding wc_defaults
completed_defaults = refl

no_errors : wc_validate true ("wan" ∷ []) (λ t. true) completed ≡ []
unfolding wc_validate error_if target_errors
no_errors = refl

no_router : wc_validate false ("wan" ∷ []) (λ t. true) completed ≡ needs_router ∷ []
unfolding wc_validate error_if target_errors
no_router = refl
