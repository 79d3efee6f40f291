-- ===== src/Apply/Run/Guarded.antt =====
-- While a change is not settled, its marker names a snapshot that is on the disk.
use text.Mathlib.Text.{◌==◌ as str_eq}
use mini_router.Prelude.{ℕ, zero, suc, ◌≡◌, refl, String, some, Bool-cases, inl, inr}
use mini_router.Apply.Disk.{
  Disk, Snapshot, Marker, absent, unreadable, marked, PendingApply, snap_of,
}
use mini_router.Apply.System.{System}
use mini_router.Apply.Action.{effect}
use mini_router.Apply.Action.Triple.{
  Triple-bind, Triple-gets, Triple-known, Keeps, Keeps-bind, Keeps-pure, Keeps-effect, keeps_rules,
  IsStable, IsSettling,
}
use mini_router.Apply.Pending.{set_pending, arm_confirm, list_snapshot_of}
use mini_router.Apply.Plan.{Plan}
use mini_router.Apply.Restore.Stable.{Keeps-stage_accepted, Keeps-accept_staged, Keeps-files}
use mini_router.Apply.Rollback.Stable.{Keeps-fw_load}
use mini_router.Apply.Rollback.Settling.{Keeps-rollback, Keeps-clear_pending, Keeps-set_result}
use mini_router.Apply.Run.{ApplyOpts, applied, accept, undo, activate, write_and_activate}
use mini_router.Apply.Run.Stable.{
  Keeps-write_files, Keeps-link_all, Keeps-remove_files, Keeps-remove_orphans,
}

-- A marker for the snapshot `snap`, of a change without list files.
abbrev pub MarksSnap : String → Marker → Type 0
MarksSnap snap absent = Unit
MarksSnap snap unreadable = Unit
MarksSnap snap (marked p) = (p.snapshot ≡ snap) × (p.list_snapshot ≡ "")

pub record IsGuarded (snap : String) (s : Snapshot) (d : Disk) : Type 0 where
  pub marks : MarksSnap snap d.marker
  pub kept : snap_of snap d.snaps ≡ some s

module _ (snap : String) (s : Snapshot) where
  pub IsGuarded-stable : IsStable (IsGuarded snap s)
  IsGuarded-stable = record {
    on_files = λ d f h. record { marks = h.marks; kept = h.kept };
    on_links = λ d l h. record { marks = h.marks; kept = h.kept };
    on_revisions = λ d r h. record { marks = h.marks; kept = h.kept };
    on_lists = λ d t h. record { marks = h.marks; kept = h.kept };
  }

  pub IsGuarded-settling : IsSettling (IsGuarded snap s)
  IsGuarded-settling = record {
    stable = IsGuarded-stable;
    on_absent = λ d h. record { marks = tt; kept = h.kept };
  }

module _ (sys : System) (snap : String) (s : Snapshot) where
  list_snapshot_of-none : (m : Marker) → MarksSnap snap m → list_snapshot_of snap m ≡ ""
  unfolding list_snapshot_of
  list_snapshot_of-none absent h = refl
  list_snapshot_of-none unreadable h = refl
  list_snapshot_of-none (marked old) h = elim (Bool-cases (str_eq old.snapshot snap)) [
    | inl e ↦ rw e h.1
    | inr e ↦ rw e
  ]

  Keeps-mark :
      (p : PendingApply)
      → MarksSnap snap (marked p)
      → Keeps (IsGuarded snap s) (effect (λ d. record d { marker = marked p }))
  Keeps-mark p h = Keeps-effect _ (λ d g. record { marks = h; kept = g.kept })

  Keeps-set_pending :
      (p : PendingApply) → MarksSnap snap (marked p) → Keeps (IsGuarded snap s) (set_pending sys p)
  unfolding set_pending
  Keeps-set_pending p h = search (keeps_rules, Keeps-mark)

  Keeps-arm_confirm :
      (secs : ℕ) (via token : String)
      → Keeps (IsGuarded snap s) (arm_confirm sys snap secs via token)
  unfolding arm_confirm
  Keeps-arm_confirm secs via token = record {
    triple =
        Triple-bind _ _ (Triple-gets (λ d. d.marker) (λ d g. (g, list_snapshot_of-none _ g.marks)))
          (λ m.
            Triple-known {X = list_snapshot_of snap m ≡ ""}
              (λ e. (Keeps-set_pending _ (refl, e)).triple));
  }

  Keeps-accept :
      (c : sys.Config) (secs : ℕ) (o : ApplyOpts)
      → Keeps (IsGuarded snap s) (accept sys snap c secs o)
  unfolding accept
  Keeps-accept c zero o =
      Keeps-bind _ _ (Keeps-clear_pending (IsGuarded-settling snap s) sys snap) (λ _.
        Keeps-bind _ _ (Keeps-accept_staged (IsGuarded-stable snap s)) (λ _.
          Keeps-bind _ _ (Keeps-set_result (IsGuarded-stable snap s) snap "applied") (λ _.
            Keeps-bind _ _ (Keeps-files (IsGuarded-stable snap s) _) (λ _. Keeps-pure applied))))
  Keeps-accept c (suc n) o =
      search (keeps_rules, Keeps-arm_confirm, Keeps-set_result (IsGuarded-stable snap s))

  pub Keeps-undo : Keeps (IsGuarded snap s) (undo sys snap)
  unfolding undo
  Keeps-undo = search (keeps_rules, Keeps-rollback (IsGuarded-settling snap s))

  Keeps-activate :
      (c : sys.Config) (p : Plan) (secs : ℕ) (o : ApplyOpts)
      → Keeps (IsGuarded snap s) (activate sys snap c p secs o)
  unfolding activate
  Keeps-activate c p secs o =
      search (keeps_rules, Keeps-undo, Keeps-fw_load (IsGuarded-stable snap s), Keeps-accept) depth
        10

  pub Keeps-write_and_activate :
      (c : sys.Config) (p : Plan) (secs : ℕ) (o : ApplyOpts)
      → Keeps (IsGuarded snap s) (write_and_activate sys snap c p secs o)
  unfolding write_and_activate
  Keeps-write_and_activate c p secs o =
      let st = IsGuarded-stable snap s in
      search
        (
          keeps_rules,
          Keeps-stage_accepted st,
          Keeps-write_files st,
          Keeps-undo,
          Keeps-link_all st,
          Keeps-remove_files st,
          Keeps-remove_orphans st,
          Keeps-activate,
        )
        depth 14
