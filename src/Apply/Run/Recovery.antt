-- ===== src/Apply/Run/Recovery.antt =====
-- An apply that the power cuts, and the boot after it.
use mini_router.Prelude.{
  ℕ, ◌≡◌, refl, true, false, String, Option, none, some, List, [], ◌∷◌, All, sym, ◌∙◌, ap, arith,
  IsIn,
}
use mini_router.Apply.Disk.{
  FilePath, path_eq, path_eq_iff, Files, Snapshot, Marker, absent, unreadable, marked, PendingApply,
  snap_of,
}
use mini_router.Apply.System.{System}
use mini_router.Apply.Action.{World, ret}
use mini_router.Apply.Archive.{saved, listed, entry_of}
use mini_router.Apply.Archive.Saved.{entry_of-saved, All-saved}
use mini_router.Apply.Plan.{Plan, plan}
use mini_router.Apply.Restore.PutBack.{Matches}
use mini_router.Apply.Rollback.{rollback_at_boot}
use mini_router.Apply.Rollback.Boot.{IsPlain, rollback_at_boot-put_back}
use mini_router.Apply.Run.{ApplyOpts, Candidate, snapshot_paths, sources, apply_with}
use mini_router.Apply.Run.Crash.{LeadsBack, old_state, apply_with-IsRecoverable}

Matches-saved :
    (f : Files) (src : FilePath → FilePath) (q : FilePath) (l : List (FilePath × String))
    → All (λ e. f (src e.0) ≡ some e.1) l
    → All (Matches q (f (src q))) l
Matches-saved f src q [] h = tt
Matches-saved f src q ((p, s) ∷ l) (e, h) =
    (λ y. ap (λ x. f (src x)) (sym ((path_eq_iff p q).0 y)) ∙ e, Matches-saved f src q l h)

at_marker :
    (snap : String) (s : Snapshot) (m : Marker) (p : PendingApply) (l : List (String × Snapshot))
    → m ≡ marked p
    → LeadsBack snap s m l
    → (p.list_snapshot ≡ "") × (snap_of p.snapshot l ≡ some s)
at_marker snap s absent p l e h = cc
at_marker snap s unreadable p l e h = cc
at_marker snap s (marked p') p l e h = ground arith

path_eq_refl : (q : FilePath) → path_eq q q ≡ true
path_eq_refl q = (path_eq_iff q q).1 refl

-- No marker of a change, or one that names a snapshot on the disk and no list files; the snapshot
-- covers the paths, and has for each of them the old content, or nothing where it was missing.
abbrev pub HasWayBack :
    String → List FilePath → (FilePath → Option String) → Marker → List (String × Snapshot) → Type 0
HasWayBack snap paths old absent snaps = Unit
HasWayBack snap paths old unreadable snaps = Unit
HasWayBack snap paths old (marked p) snaps =
    (p.snapshot ≡ snap)
    × (p.list_snapshot ≡ "")
    × ((s : Snapshot) × (snap_of snap snaps ≡ some s)
        × (s.covered ≡ paths)
        × ((q : FilePath) → IsIn q paths → entry_of q s.entries ≡ old q))

-- the disk after the power came back
abbrev pub rebooted : World → World
rebooted w = record w { cut_at = none }

-- However an apply that started without a marker, on files of no restored list, is cut by the power,
-- or ends: if a marker of a change is left, the next boot on a machine whose writes and removals
-- succeed returns without an error and removes the marker, where the apply could remove it too, and every path of the snapshot but secrets.yaml and the staged copies has the content, or
-- absence, that its source had before the apply.
pub boot_after_apply :
    (sys boot : System) (snap : String) (w : World) (c : sys.Config) (secs : ℕ)
    (k : Option Candidate) (o : ApplyOpts) (p : Plan) (m : PendingApply) (q : FilePath)
    → ((n : ℕ) (x : FilePath) → boot.io_fails n x ≡ false)
    → ((n : ℕ) → boot.remove_fails n ≡ false)
    → ((n : ℕ) → sys.remove_fails n ≡ false)
    → w.disk.marker ≡ absent
    → plan sys c w.disk ≡ some p
    → o.list_snapshot ≡ ""
    → (apply_with sys snap c false secs k o w).1.disk.marker ≡ marked m
    → IsPlain q
    → listed q (snapshot_paths sys p) ≡ true
    → let w' = rebooted (apply_with sys snap c false secs k o w).1 in
      ((rollback_at_boot boot w').0 ≡ ret true)
      × ((rollback_at_boot boot w').1.disk.marker ≡ absent)
      × ((rollback_at_boot boot w').1.disk.files q ≡ w.disk.files (sources sys k w.disk.files q))
boot_after_apply sys boot snap w c secs k o p m q fine clears removes e pe l me plain lq =
    let f = w.disk.files in
    let src = sources sys k f in
    let paths = snapshot_paths sys p in
    let s = old_state sys removes snap p k f in
    let w1 = (apply_with sys snap c false secs k o w).1 in
    let safe = apply_with-IsRecoverable sys removes snap w c false secs k o p e pe l in
    let (listless, kept) = at_marker snap s w1.disk.marker m w1.disk.snaps me safe in
    rollback_at_boot-put_back boot fine clears q plain s (rebooted w1) m (f (src q)) refl me
      listless kept (Matches-saved f src q (saved f src paths) (All-saved f src paths)) lq
      (rw (entry_of-saved f src q paths, lq))
