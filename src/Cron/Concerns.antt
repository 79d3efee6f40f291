-- ===== src/Cron/Concerns.antt =====
-- Which schedules schedOff looks at for a window.
use text.Mathlib.Text.{◌==◌ as str_eq}
use mini_router.Prelude.{
  ◌≡◌, ◌↔◌, refl, Bool, true, false, ◌&&◌, ◌||◌, String, arith, Bool-cases, inl, inr, ◌⊎◌, eq_iff,
}
use mini_router.Prelude.Bytes.{Bytes}
use mini_router.Cron.{Checked, ok, err, Schedule, is_checked, check_cron}

-- an enabled schedule of the window, for the target or for all, with an accepted cron expression
abbrev pub Concerns : String → String → String → Schedule → Type 0
Concerns off on_act target s =
    (s.enabled ≡ true)
    × ((s.action ≡ off) ⊎ (s.action ≡ on_act))
    × ((s.target ≡ "") ⊎ (s.target ≡ target))
    × ((text : Bytes) × (check_cron s.cron s.action ≡ ok text))

abbrev pub concerns : String → String → String → Schedule → Bool
concerns off on_act target s =
    s.enabled
    && (str_eq s.action off || str_eq s.action on_act)
    && (str_eq s.target "" || str_eq s.target target)
    && is_checked (check_cron s.cron s.action)

either_iff : (a b c : String) → (str_eq a b || str_eq a c ≡ true) ↔ ((a ≡ b) ⊎ (a ≡ c))
either_iff a b c = (to (Bool-cases (str_eq a b)), from)
  where
    to :
        (str_eq a b ≡ true) ⊎ (str_eq a b ≡ false)
        → str_eq a b || str_eq a c ≡ true
        → (a ≡ b) ⊎ (a ≡ c)
    to (inl e) h = inl ((eq_iff a b).0 e)
    to (inr e) h = inr ((eq_iff a c).0 (ground arith))

    from : (a ≡ b) ⊎ (a ≡ c) → str_eq a b || str_eq a c ≡ true
    from (inl e) = let hit = (eq_iff a b).1 e in ground arith
    from (inr e) = let hit = (eq_iff a c).1 e in ground arith

checked_iff : (r : Checked Bytes) → (is_checked r ≡ true) ↔ ((text : Bytes) × (r ≡ ok text))
checked_iff (ok s) = (λ e. (s, refl), λ e. refl)
checked_iff (err x) = (λ e. cc, λ k. differ k.1)
  where
    differ : {text : Bytes} → err x ≡ ok text → false ≡ true
    differ k = cc

pub concerns-Concerns :
    (off on_act target : String) (s : Schedule)
    → (concerns off on_act target s ≡ true) ↔ Concerns off on_act target s
concerns-Concerns off on_act target s = (
  λ e. (
    ground arith,
    (either_iff s.action off on_act).0 (ground arith),
    (either_iff s.target "" target).0 (ground arith),
    (checked_iff (check_cron s.cron s.action)).0 (ground arith),
  ),
  λ (e, a, t, c).
      let a' = (either_iff s.action off on_act).1 a in
      let t' = (either_iff s.target "" target).1 t in
      let c' = (checked_iff (check_cron s.cron s.action)).1 c in ground arith,
)
