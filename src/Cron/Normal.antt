-- ===== src/Cron/Normal.antt =====
-- The expression that checkCron returns, with single spaces, means what the one it was given means.
use mini_router.Prelude.{◌≡◌, refl, String, ap, ◌∙◌}
use mini_router.Prelude.Bytes.{Bytes}
use mini_router.Strings.{fields, join}
use mini_router.Strings.Words.{are_words-fields, fields-join}
use mini_router.Cron.{ok, check_fields, cron_fields, check_cron, Wall, cron_match}
use mini_router.Cron.Hourly.{accepted_parts}

pub check_cron-join :
    (spec : Bytes) (action : String) (r : Bytes)
    → check_cron spec action ≡ ok r
    → r ≡ join (fields spec)
unfolding check_cron
check_cron-join spec action r e =
    let (five, (single, (checked, (first, (second, eq))))) =
      accepted_parts (fields spec) (check_fields cron_fields (fields spec)) action r e in
    eq

same_fields : (spec : Bytes) → fields (join (fields spec)) ≡ fields spec
same_fields spec = fields-join (fields spec) (are_words-fields spec)

check_cron-fields :
    (s t : Bytes) (action : String)
    → fields s ≡ fields t
    → check_cron s action ≡ check_cron t action
unfolding check_cron
check_cron-fields s t action e = rw e refl

cron_match-fields : (s u : Bytes) (t : Wall) → fields s ≡ fields u → cron_match s t ≡ cron_match u t
unfolding cron_match
cron_match-fields s u t e = rw e refl

-- The expression that the check returns is accepted again, as it stands, and runs at the times at
-- which the given one runs.
pub check_cron_again :
    (spec : Bytes) (action : String) (r : Bytes)
    → check_cron spec action ≡ ok r
    → (check_cron r action ≡ ok r) × ((t : Wall) → cron_match r t ≡ cron_match spec t)
check_cron_again spec action r e =
    (check_cron-fields r spec action same ∙ e, λ t. cron_match-fields r spec t same)
  where
    same : fields r ≡ fields spec
    same = ap fields (check_cron-join spec action r e) ∙ same_fields spec
