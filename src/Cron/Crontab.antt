-- ===== src/Cron/Crontab.antt =====
-- The schedules of a config and their lines of the crontab (mr/mod_sys_cron.go scheduleService,
-- validateSchedules, and the loop of renderCronLines over the schedules). A line is its data; the
-- services, WANs, wake-up targets and radios of the config are the record Targets.
pub mod Lines
use text.Mathlib.Text.{◌==◌ as str_eq}
use mini_router.Prelude.{
  ℕ, suc, ◌+◌, Bool, true, false, not, ◌&&◌, ◌||◌, String, Option, none, some, List, [], ◌∷◌, ◌++◌,
  if◌then◌else◌, ltb, length,
}
use mini_router.Prelude.Bytes.{Bytes}
use mini_router.Cron.{Schedule, Checked, CronError, ok, err, check_cron}

pub record Targets : Type 0 where
  -- enabledServices
  pub services : List String
  -- WANByName, and netService of it, "" for a static one
  pub wan_service : String → Option String
  -- wolTarget without an error
  pub is_wol_target : String → Bool
  -- the phys of wifi.radios
  pub radios : List String

pub data ServiceError : Type 0 where
  takes_no_target network_restart not_enabled no_wan static_wan bad_wol no_radio no_action :
      ServiceError

pub data Resolved : Type 0 where
  service : String → Resolved
  unresolved : ServiceError → Resolved

abbrev pub has_string : String → List String → Bool
has_string x [] = false
has_string x (y ∷ l) = let rest = has_string x l in str_eq y x || rest

abbrev pub wan_or_error : Option String → Resolved
wan_or_error none = unresolved no_wan
wan_or_error (some svc) = if str_eq svc "" then unresolved static_wan else service svc

abbrev pub without_target : String → Resolved
without_target target = if not (str_eq target "") then unresolved takes_no_target else service ""

abbrev pub restarted : Targets → String → Resolved
restarted o target =
    if str_eq target "mr-network"
    then unresolved network_restart
    else if has_string target o.services
    then service target
    else unresolved not_enabled

abbrev pub radio_window : Targets → String → Resolved
radio_window o target =
    if str_eq target ""
    then service ""
    else if has_string target o.radios
    then service ""
    else unresolved no_radio

-- scheduleService
unfoldable pub schedule_service : Targets → String → String → Resolved
schedule_service o action target =
    if str_eq action "reboot"
    then without_target target
    else if str_eq action "restart"
    then restarted o target
    else if str_eq action "reconnect"
    then wan_or_error (o.wan_service target)
    else if str_eq action "wol"
    then (if o.is_wol_target target then service "" else unresolved bad_wol)
    else if str_eq action "wifi-off" || str_eq action "wifi-on"
    then radio_window o target
    else if str_eq action "leds-off" || str_eq action "leds-on"
    then without_target target
    else unresolved no_action

pub data ScheduleError : Type 0 where
  too_many : ScheduleError
  bad_name duplicate_name : String → ScheduleError
  bad_cron : CronError → ScheduleError
  bad_action : ServiceError → ScheduleError

abbrev pub cron_errors : Checked Bytes → List ScheduleError
cron_errors (ok s) = []
cron_errors (err e) = bad_cron e ∷ []

abbrev pub service_errors : Resolved → List ScheduleError
service_errors (service s) = []
service_errors (unresolved e) = bad_action e ∷ []

abbrev pub name_errors : (String → Bool) → List String → String → List ScheduleError
name_errors is_label seen n =
    if not (is_label n)
    then bad_name n ∷ []
    else if has_string n seen
    then duplicate_name n ∷ []
    else []

-- the loop of validateSchedules, with the names that it has seen; `is_label` is reLabel
unfoldable pub schedule_errors :
    Targets → (String → Bool) → List String → List Schedule → List ScheduleError
schedule_errors o is_label seen [] = []
schedule_errors o is_label seen (s ∷ l) =
    name_errors is_label seen s.name
    ++ (cron_errors (check_cron s.cron s.action)
        ++ (service_errors (schedule_service o s.action s.target)
            ++ schedule_errors o is_label (s.name ∷ seen) l))

unfoldable pub validate_schedules : Targets → (String → Bool) → List Schedule → List ScheduleError
validate_schedules o is_label l =
    (if ltb 32 (length l) then too_many ∷ [] else []) ++ schedule_errors o is_label [] l

-- a comment with the name, and the expression with the command
pub record CronLine : Type 0 where
  pub comment : String
  pub spec : Bytes
  pub run : String
  pub on_target : String

abbrev pub line_of : Schedule → Checked Bytes → Resolved → List CronLine
line_of s (err e) r = []
line_of s (ok spec) (unresolved e) = []
line_of s (ok spec) (service svc) =
    record { comment = s.name; spec = spec; run = s.action; on_target = s.target } ∷ []

-- the loop of renderCronLines over the schedules
unfoldable pub schedule_lines : Targets → List Schedule → List CronLine
schedule_lines o [] = []
schedule_lines o (s ∷ l) =
    let rest = schedule_lines o l in
    let lines = line_of s (check_cron s.cron s.action) (schedule_service o s.action s.target) in
    if not s.enabled then rest else lines ++ rest
