-- ===== src/Apply/Run/Refused.antt =====
-- The applies that change nothing: a refused one, and a dry run.
use mini_router.Prelude.{
  inl, inr, Bool-cases, ℕ, ◌≡◌, ◌≢◌, refl, Bool, true, false, ◌&&◌, String, Option, none, some,
}
use mini_router.Apply.Disk.{Marker, absent, unreadable, marked}
use mini_router.Apply.System.{System}
use mini_router.Apply.Action.{World, ret, ◌>>=◌, pure, gets}
use mini_router.Apply.Plan.{Plan, plan, is_empty_plan}
use mini_router.Apply.Pending.{Refusal, pending_blocks}
use mini_router.Apply.Run.{
  ApplyOpts, Candidate, refused, no_candidate, with_plan, validated, unless_refused, apply_with,
}

module _ (sys : System) (snap : String) (c : sys.Config) (secs : ℕ) (k : Option Candidate)
    (o : ApplyOpts) (w : World) where
  blocked :
      (dry : Bool) (m : Marker)
      → m ≢ absent
      → (r : Refusal) × (unless_refused sys snap c dry secs k o (pending_blocks sys m) w
          ≡ (ret (refused r), w))
  unfolding pending_blocks unless_refused pure
  blocked dry absent n = absurd (n refl)
  blocked dry unreadable n = (_, refl)
  blocked dry (marked p) n = (_, refl)

  dry_plan : (p : Option Plan) → (with_plan sys snap c true secs k o p w).1 ≡ w
  unfolding with_plan pure
  dry_plan none = refl
  dry_plan (some p) = elim (Bool-cases (is_empty_plan p && no_candidate k)) [
    | inl e ↦ rw e refl
    | inr e ↦ rw e refl
  ]

  dry_validated : (validated sys snap c true secs k o w).1 ≡ w
  unfolding validated ◌>>=◌ gets pure
  dry_validated = elim (Bool-cases (sys.valid c)) [
    | inl e ↦ rw e (dry_plan (plan sys c w.disk))
    | inr e ↦ rw e refl
  ]

-- While there is a marker, an apply that is not a dry run is refused, and it changes nothing.
pub apply_with-refused :
    (sys : System) (snap : String) (c : sys.Config) (secs : ℕ) (k : Option Candidate)
    (o : ApplyOpts) (w : World)
    → w.disk.marker ≢ absent
    → (r : Refusal) × (apply_with sys snap c false secs k o w ≡ (ret (refused r), w))
unfolding apply_with ◌>>=◌ gets
apply_with-refused sys snap c secs k o w n = blocked sys snap c secs k o w false w.disk.marker n

-- A dry run changes nothing, whatever it comes to and whether or not a change is pending.
pub apply_with-dry :
    (sys : System) (snap : String) (c : sys.Config) (secs : ℕ) (k : Option Candidate)
    (o : ApplyOpts) (w : World)
    → (apply_with sys snap c true secs k o w).1 ≡ w
unfolding apply_with ◌>>=◌ gets unless_refused
apply_with-dry sys snap c secs k o w = dry_validated sys snap c secs k o w
