-- ===== src/Apply/Run/Crash.antt =====
-- Wherever an apply is cut, a marker on the disk names the snapshot of the disk before it, on a machine
-- that can remove its marker.
use text.Mathlib.Text.{◌==◌ as str_eq}
use mini_router.Prelude.{
  ℕ, ◌≡◌, refl, Bool, true, false, ◌||◌, String, Option, none, some, List, arith, ap, if◌then◌else◌,
  sym, subst, eq_iff,
}
use mini_router.Apply.Disk.{
  FilePath, Files, Disk, Snapshot, Marker, absent, unreadable, marked, PendingApply, snap_of,
  drop_snap,
}
use mini_router.Apply.System.{System}
use mini_router.Apply.Action.{World, M, ◌>>=◌, ◌>>◌, pure, effect}
use mini_router.Apply.Action.Triple.{
  Triple, Triple-bind, Triple-gets, Triple-now, Triple-if, Triple-pure, Triple-effect, Triple-post,
  Triple-pre, Triple-known, Keeps, Keeps-bind, Keeps-if, Keeps-pure, Holds-disk,
}
use mini_router.Apply.Archive.{snapshot_from}
use mini_router.Apply.Archive.Prune.{IsSaved, IsFresh, snapshot_of, snapshot_from-IsSaved}
use mini_router.Apply.Pending.{Refusal, clear_pending, remove_marker, names_snap, pending_blocks}
use mini_router.Apply.Pending.Claim.{NotMarked, IsClaimed, Claims, claim_pending-Claims}
use mini_router.Apply.Plan.{Plan, plan}
use mini_router.Apply.Restore.Stable.{Keeps-lists}
use mini_router.Apply.Rollback.Settling.{Keeps-new_revision}
use mini_router.Apply.Run.{
  ApplyOpts, stale, Candidate, claimed, withdraw, install_and_write, claim_of, claim_and_go,
  sources, claim_error, snapshot_error, validated, unless_refused, invalid, nothing_to_do, planned,
  snapshot_paths, transact, with_plan, apply_with,
}
use mini_router.Apply.Run.Stable.{Keeps-run_install}
use mini_router.Apply.Run.Guarded.{
  MarksSnap, IsGuarded, IsGuarded-stable, Keeps-write_and_activate, Keeps-undo,
}

-- A marker on the disk leads back to the snapshot `s`.
abbrev pub LeadsBack : String → Snapshot → Marker → List (String × Snapshot) → Type 0
LeadsBack snap s absent snaps = Unit
LeadsBack snap s unreadable snaps = Unit
LeadsBack snap s (marked p) snaps =
    (p.snapshot ≡ snap) × (p.list_snapshot ≡ "") × (snap_of snap snaps ≡ some s)

abbrev pub IsRecoverable : String → Snapshot → Disk → Type 0
IsRecoverable snap s d = LeadsBack snap s d.marker d.snaps

module _ (snap : String) (s : Snapshot) where
  absent-LeadsBack : (m : Marker) (l : List (String × Snapshot)) → m ≡ absent → LeadsBack snap s m l
  absent-LeadsBack absent l e = tt
  absent-LeadsBack unreadable l e = tt
  absent-LeadsBack (marked p) l e = cc

  marks-LeadsBack :
      (m : Marker) (l : List (String × Snapshot))
      → MarksSnap snap m
      → snap_of snap l ≡ some s
      → LeadsBack snap s m l
  marks-LeadsBack absent l h k = tt
  marks-LeadsBack unreadable l h k = tt
  marks-LeadsBack (marked p) l h k = (h.0, h.1, k)

  guarded-IsRecoverable : (d : Disk) → IsGuarded snap s d → IsRecoverable snap s d
  guarded-IsRecoverable d h = marks-LeadsBack d.marker d.snaps h.marks h.kept

  Recover :
      {A : Type 0} {m : M A}
      → Keeps (IsGuarded snap s) m
      → Triple (IsGuarded snap s) (IsRecoverable snap s) m (λ _. IsGuarded snap s)
  Recover k = Triple-post _ guarded-IsRecoverable (λ a d h. h) k.triple

  Recovers :
      {A : Type 0} {m : M A}
      → Keeps (IsGuarded snap s) m
      → Triple (IsGuarded snap s) (IsRecoverable snap s) m (λ _. IsRecoverable snap s)
  Recovers k = Triple-post _ guarded-IsRecoverable (λ a. guarded-IsRecoverable) k.triple

  NotMarked-LeadsBack :
      (m : Marker) (l : List (String × Snapshot)) → NotMarked m → LeadsBack snap s m l
  NotMarked-LeadsBack absent l h = tt
  NotMarked-LeadsBack unreadable l h = tt
  NotMarked-LeadsBack (marked p) l h = elim h [ ]

  -- a snapshot goes only when there is no marker for it
  dropped-IsRecoverable :
      {A : Type 0} (a : A)
      → Triple
          (λ d. NotMarked d.marker)
          (IsRecoverable snap s)
          (do effect (λ d. record d { snaps = drop_snap snap d.snaps }); pure a)
          (λ _. IsRecoverable snap s)
  dropped-IsRecoverable a =
      Triple-bind _ _
        (Triple-effect {Q = λ _. IsRecoverable snap s} _ (λ d h. NotMarked-LeadsBack _ _ h)
          (λ d h. NotMarked-LeadsBack _ _ h))
        (λ _. Triple-pure a (λ d h. h))

  -- the marker of `snap` is cleared by name
  clear_pending-NotMarked :
      (sys : System)
      → ((n : ℕ) → sys.remove_fails n ≡ false)
      → Triple
          (IsGuarded snap s)
          (IsRecoverable snap s)
          (clear_pending sys snap)
          (λ _ d. NotMarked d.marker)
  unfolding clear_pending remove_marker
  clear_pending-NotMarked sys removes =
      Triple-bind _ _ (Triple-gets (λ d. d.marker) (λ d h. ((h, refl), h.marks))) (λ m.
        Triple-known {P = λ d. IsGuarded snap s d × (d.marker ≡ m)} (λ marks.
          Triple-if _ _ _
            (λ _. Triple-bind _ _ (Triple-now (λ n d h. h)) (λ n.
              Triple-if (sys.remove_fails n) _ _ (λ e. absurd (both (removes n) e))
                (λ _. Triple-effect _ (λ d h. guarded-IsRecoverable d h.0) (λ d h. tt))))
            (λ differs. Triple-pure tt (λ d h. unnamed m d marks differs h.1))))
    where
      both : {b : Bool} → b ≡ false → b ≡ true → ⊥
      both e h = cc

      unnamed :
          (m : Marker) (d : Disk)
          → MarksSnap snap m
          → (str_eq snap "" || names_snap snap m) ≡ false
          → d.marker ≡ m
          → NotMarked d.marker
      unnamed absent d h differs e = rw e tt
      unnamed unreadable d h differs e = rw e tt
      unnamed (marked p) d h differs e = absurd (ground (arith, eq_iff p.snapshot snap))

module _ (sys : System) (removes : (n : ℕ) → sys.remove_fails n ≡ false) (snap : String)
    (s : Snapshot) where
  withdraw-IsRecoverable :
      Triple
        (IsGuarded snap s)
        (IsRecoverable snap s)
        (withdraw sys snap)
        (λ _. IsRecoverable snap s)
  unfolding withdraw
  withdraw-IsRecoverable =
      Triple-bind _ _ (clear_pending-NotMarked snap s sys removes)
        (λ _. dropped-IsRecoverable snap s stale)

  Keeps-install_and_write :
      (c : sys.Config) (p : Plan) (secs : ℕ) (k : Option Candidate) (o : ApplyOpts)
      → Keeps (IsGuarded snap s) (install_and_write sys snap c p secs k o)
  unfolding install_and_write
  Keeps-install_and_write c p secs k o =
      Keeps-bind _ _ (Keeps-new_revision (IsGuarded-stable snap s) snap o.via) (λ _.
        Keeps-bind _ _ (Keeps-run_install (IsGuarded-stable snap s) sys k) (λ done.
          Keeps-if done _ _ (Keeps-write_and_activate sys snap s c p secs o)
            (Keeps-undo sys snap s)))

  claimed-IsRecoverable :
      (c : sys.Config) (p : Plan) (secs : ℕ) (k : Option Candidate) (o : ApplyOpts)
      → Triple
          (IsGuarded snap s)
          (IsRecoverable snap s)
          (claimed sys snap c p secs k o)
          (λ _. IsRecoverable snap s)
  unfolding claimed
  claimed-IsRecoverable c p secs k o =
      Triple-bind _ _
        (Recover snap s (
          Keeps-if (str_eq o.list_snapshot "") _ _ (Keeps-pure tt)
            (Keeps-lists (IsGuarded-stable snap s) "")))
        (λ _. Triple-bind _ _ (Triple-gets _ (λ d h. h)) (λ late.
          Triple-if late _ _ (λ _. withdraw-IsRecoverable)
            (λ _. Recovers snap s (Keeps-install_and_write c p secs k o))))

  claim-IsGuarded :
      (q : PendingApply) (d : Disk)
      → q.snapshot ≡ snap
      → q.list_snapshot ≡ ""
      → IsClaimed snap s q d
      → IsGuarded snap s d
  claim-IsGuarded q d e l h = record {
    marks = subst (MarksSnap snap) (sym h.mine) (e, l);
    kept = h.kept;
  }

  claim_and_go-IsRecoverable :
      (c : sys.Config) (p : Plan) (secs : ℕ) (k : Option Candidate) (o : ApplyOpts)
      → o.list_snapshot ≡ ""
      → Triple
          (IsSaved snap s)
          (IsRecoverable snap s)
          (claim_and_go sys snap c p secs k o)
          (λ _. IsRecoverable snap s)
  unfolding claim_and_go claim_of
  claim_and_go-IsRecoverable c p secs k o none_listed =
      Triple-bind _ _
        (Triple-post _ (λ d. NotMarked-LeadsBack snap s _ _) (λ a d h. h)
          (claim_pending-Claims sys snap s (claim_of sys snap o)))
        (λ mine. go mine)
    where
      go :
          (mine : Bool)
          → Triple
              (Claims sys snap s (claim_of sys snap o) mine)
              (IsRecoverable snap s)
              (if mine then claimed sys snap c p secs k o else (do
                effect (λ d. record d { snaps = drop_snap snap d.snaps })
                pure claim_error))
              (λ _. IsRecoverable snap s)
      go true =
          Triple-pre _ (λ d h. claim-IsGuarded (claim_of sys snap o) d refl none_listed h)
            (claimed-IsRecoverable c p secs k o)
      go false = dropped-IsRecoverable snap s claim_error

module _ (sys : System) (removes : (n : ℕ) → sys.remove_fails n ≡ false) (snap : String) where
  -- The snapshot of an apply: the plan's paths, each with the content of its source.
  abbrev pub old_state : Plan → Option Candidate → Files → Snapshot
  old_state p k f = snapshot_of sys snap (snapshot_paths sys p) (sources sys k f) f

  same_plan : {p q : Plan} → some p ≡ some q → p ≡ q
  same_plan e = cc

  transact-IsRecoverable :
      (f : Files) (c : sys.Config) (p : Plan) (secs : ℕ) (k : Option Candidate) (o : ApplyOpts)
      → o.list_snapshot ≡ ""
      → Triple
          (IsFresh f)
          (IsRecoverable snap (old_state p k f))
          (transact sys snap c p secs k o)
          (λ _. IsRecoverable snap (old_state p k f))
  unfolding transact
  transact-IsRecoverable f c p secs k o none_listed =
      Triple-bind _ _ (Triple-gets _ (λ d h. (h, ap (sources sys k) h.same)))
        (λ src. Triple-known (λ e. from_sources src e))
    where
      s : Snapshot
      s = old_state p k f

      saved_then :
          (b : Bool)
          → Triple
              (λ d. if b then IsSaved snap s d else (d.marker ≡ absent))
              (IsRecoverable snap s)
              (if b then claim_and_go sys snap c p secs k o else pure snapshot_error)
              (λ _. IsRecoverable snap s)
      saved_then true = claim_and_go-IsRecoverable sys removes snap s c p secs k o none_listed
      saved_then false = Triple-pure snapshot_error (λ d h. absent-LeadsBack snap s _ _ h)

      from_sources :
          (src : FilePath → FilePath)
          → src ≡ sources sys k f
          → Triple
              (IsFresh f)
              (IsRecoverable snap s)
              (do
                saved ← snapshot_from sys snap (snapshot_paths sys p) (sys.history_keep c) src
                if saved then claim_and_go sys snap c p secs k o else pure snapshot_error)
              (λ _. IsRecoverable snap s)
      from_sources src e =
          Triple-bind _ _
            (Triple-post _ (λ d h. absent-LeadsBack snap s _ _ h) (λ a d h. h)
              (rw e (
                snapshot_from-IsSaved sys snap (snapshot_paths sys p) (sources sys k f) f
                  (sys.history_keep c))))
            saved_then

  with_plan-IsRecoverable :
      (f : Files) (c : sys.Config) (dry : Bool) (secs : ℕ) (k : Option Candidate) (o : ApplyOpts)
      (q : Option Plan) (p : Plan)
      → q ≡ some p
      → o.list_snapshot ≡ ""
      → Triple
          (IsFresh f)
          (IsRecoverable snap (old_state p k f))
          (with_plan sys snap c dry secs k o q)
          (λ _. IsRecoverable snap (old_state p k f))
  unfolding with_plan
  with_plan-IsRecoverable f c dry secs k o none p e l = cc
  with_plan-IsRecoverable f c dry secs k o (some p') p e l =
      let kept : (d : Disk) → IsFresh f d → IsRecoverable snap (old_state p k f) d =
        λ d h. absent-LeadsBack snap (old_state p k f) _ _ h.unmarked in
      Triple-if _ _ _ (λ _. Triple-pure nothing_to_do kept)
        (λ _.
          Triple-if dry _ _ (λ _. Triple-pure planned kept)
            (λ _.
              subst
                (λ x.
                  Triple (IsFresh f) (IsRecoverable snap (old_state x k f))
                    (transact sys snap c p' secs k o) (λ _. IsRecoverable snap (old_state x k f)))
                (same_plan e) (transact-IsRecoverable f c p' secs k o l)))

  unblocked :
      (dry : Bool) (m : Marker) → m ≡ absent → (if dry then none else pending_blocks sys m) ≡ none
  unfolding pending_blocks
  unblocked true m e = refl
  unblocked false absent e = refl
  unblocked false unreadable e = cc
  unblocked false (marked p) e = cc

  validated-IsRecoverable :
      (d0 : Disk) (c : sys.Config) (dry : Bool) (secs : ℕ) (k : Option Candidate) (o : ApplyOpts)
      (p : Plan)
      → d0.marker ≡ absent
      → plan sys c d0 ≡ some p
      → o.list_snapshot ≡ ""
      → Triple
          (λ d. d ≡ d0)
          (IsRecoverable snap (old_state p k d0.files))
          (validated sys snap c dry secs k o)
          (λ _. IsRecoverable snap (old_state p k d0.files))
  unfolding validated
  validated-IsRecoverable d0 c dry secs k o p e pe l =
      Triple-if _ _ _
        (λ _.
          Triple-pure invalid (λ d h. absent-LeadsBack snap (old_state p k d0.files) _ _ (rw h e)))
        (λ _.
          Triple-bind _ _
            (Triple-gets {Q = λ q d. IsFresh d0.files d × (q ≡ some p)} (plan sys c)
              (λ d h. (record { unmarked = rw h e; same = ap (λ (x : Disk). x.files) h }, rw h pe)))
            (λ q. Triple-known (λ qe. with_plan-IsRecoverable d0.files c dry secs k o q p qe l)))

  -- the same for the whole apply
  pub apply_with-IsRecoverable :
      (w : World) (c : sys.Config) (dry : Bool) (secs : ℕ) (k : Option Candidate) (o : ApplyOpts)
      (p : Plan)
      → w.disk.marker ≡ absent
      → plan sys c w.disk ≡ some p
      → o.list_snapshot ≡ ""
      → IsRecoverable snap
          (old_state p k w.disk.files)
          (apply_with sys snap c dry secs k o w).1.disk
  apply_with-IsRecoverable w c dry secs k o p e pe l =
      Holds-disk w.cut_at (apply_with sys snap c dry secs k o w).0
        (apply_with sys snap c dry secs k o w).1 (IsRecoverable snap (old_state p k w.disk.files))
        (whole.at w refl)
    where
      refusal :
          (r : Option Refusal)
          → r ≡ none
          → Triple
              (λ d. d ≡ w.disk)
              (IsRecoverable snap (old_state p k w.disk.files))
              (unless_refused sys snap c dry secs k o r)
              (λ _. IsRecoverable snap (old_state p k w.disk.files))
      refusal none re =
          unfold unless_refused in validated-IsRecoverable w.disk c dry secs k o p e pe l
      refusal (some r) re = cc

      whole :
          Triple
            (λ d. d ≡ w.disk)
            (IsRecoverable snap (old_state p k w.disk.files))
            (apply_with sys snap c dry secs k o)
            (λ _. IsRecoverable snap (old_state p k w.disk.files))
      whole =
          unfold apply_with in
          Triple-bind _ _
            (Triple-gets {Q = λ m d. (d ≡ w.disk) × (m ≡ absent)} (λ d. d.marker)
              (λ d h. (h, rw h e)))
            (λ m. Triple-known (λ me. refusal _ (unblocked dry m me)))
