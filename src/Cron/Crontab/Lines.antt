-- ===== src/Cron/Crontab/Lines.antt =====
-- A config without errors has a line for each schedule that is on.
use mini_router.Prelude.{
  ◌≡◌, ◌≤◌, refl, Bool, true, false, String, List, [], ◌∷◌, ◌++◌, if◌then◌else◌, ltb, length, arith,
  Bool-cases, inl, inr, ap,
}
use mini_router.Prelude.Bytes.{Bytes}
use mini_router.Strings.{fields, join}
use mini_router.Cron.{Schedule, Checked, ok, err, check_cron}
use mini_router.Cron.Normal.{check_cron-join}
use mini_router.Cron.Crontab.{
  Targets, Resolved, service, unresolved, schedule_service, too_many, cron_errors, service_errors,
  name_errors, has_string, schedule_errors, validate_schedules, CronLine, line_of, schedule_lines,
}

-- the line that a schedule is to have: its expression with single spaces, its action and its target
abbrev pub expected_line : Schedule → CronLine
expected_line s = record {
  comment = s.name;
  spec = join (fields s.cron);
  run = s.action;
  on_target = s.target;
}

abbrev pub expected_lines : List Schedule → List CronLine
expected_lines [] = []
expected_lines (s ∷ l) =
    let rest = expected_lines l in if s.enabled then expected_line s ∷ rest else rest

-- the names are labels, each of them new
abbrev pub HasNames : (String → Bool) → List String → List Schedule → Type 0
HasNames is_label seen [] = Unit
HasNames is_label seen (s ∷ l) =
    (is_label s.name ≡ true)
    × (has_string s.name seen ≡ false)
    × HasNames is_label (s.name ∷ seen) l

append_nil : {A : Type 0} (l r : List A) → l ++ r ≡ [] → (l ≡ []) × (r ≡ [])
append_nil [] r e = (refl, e)
append_nil (x ∷ l) r e = ground arith

schedule_parts :
    (o : Targets) (is_label : String → Bool) (seen : List String) (s : Schedule) (l : List Schedule)
    → schedule_errors o is_label seen (s ∷ l) ≡ []
    → (name_errors is_label seen s.name ≡ [])
      × (cron_errors (check_cron s.cron s.action) ≡ [])
      × (service_errors (schedule_service o s.action s.target) ≡ [])
      × (schedule_errors o is_label (s.name ∷ seen) l ≡ [])
unfolding schedule_errors
schedule_parts o is_label seen s l e =
    let (names, e2) = append_nil (name_errors is_label seen s.name) _ e in
    let (crons, e3) = append_nil (cron_errors (check_cron s.cron s.action)) _ e2 in
    let (services, rest) =
      append_nil (service_errors (schedule_service o s.action s.target)) _ e3 in
    (names, crons, services, rest)

line_of-expected :
    (s : Schedule) (c : Checked Bytes) (r : Resolved)
    → check_cron s.cron s.action ≡ c
    → cron_errors c ≡ []
    → service_errors r ≡ []
    → line_of s c r ≡ expected_line s ∷ []
line_of-expected s (err e) r eq crons services = ground arith
line_of-expected s (ok spec) (unresolved e) eq crons services = ground arith
line_of-expected s (ok spec) (service svc) eq crons services =
    ap (λ x. record { comment = s.name; spec = x; run = s.action; on_target = s.target } ∷ [])
      (check_cron-join s.cron s.action spec eq)

schedule_errors-lines :
    (o : Targets) (is_label : String → Bool) (seen : List String) (l : List Schedule)
    → schedule_errors o is_label seen l ≡ []
    → HasNames is_label seen l × (schedule_lines o l ≡ expected_lines l)
unfolding schedule_lines
schedule_errors-lines o is_label seen [] e = (tt, refl)
schedule_errors-lines o is_label seen (s ∷ l) e =
    let (names, crons, services, errors) = schedule_parts o is_label seen s l e in
    let (rest_names, rest) = schedule_errors-lines o is_label (s.name ∷ seen) l errors in
    let line =
      line_of-expected s (check_cron s.cron s.action) (schedule_service o s.action s.target) refl
        crons services in
    (
      (ground arith, ground arith, rest_names),
      elim (Bool-cases s.enabled) [
        | inl on ↦ rw (schedule_lines, on, line, rest) refl
        | inr off ↦ rw (schedule_lines, off) rest
      ],
    )

-- Schedules without an error are at most 32, with names that are labels and all different, and the
-- crontab has a line for each one that is on, in their order: its name, its expression with single
-- spaces, its action and its target.
pub validate_schedules-lines :
    (o : Targets) (is_label : String → Bool) (l : List Schedule)
    → validate_schedules o is_label l ≡ []
    → (length l ≤ 32) × HasNames is_label [] l × (schedule_lines o l ≡ expected_lines l)
unfolding validate_schedules
validate_schedules-lines o is_label l e =
    let (few, errors) = append_nil (if ltb 32 (length l) then too_many ∷ [] else []) _ e in
    let (names, lines) = schedule_errors-lines o is_label [] l errors in
    (ground arith, names, lines)
