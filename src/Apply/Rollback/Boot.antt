-- ===== src/Apply/Rollback/Boot.antt =====
-- The rollback at boot, undisturbed: the marker goes and the snapshot's files are back.
use mini_router.Prelude.{
  ℕ, ◌≡◌, refl, Bool, true, false, String, Option, none, some, All, ap, subst, sym,
}
use mini_router.Apply.Disk.{
  FilePath, path_eq, Disk, Snapshot, Marker, absent, marked, PendingApply, snap_of, secrets_path,
  staged_config, staged_secrets,
}
use mini_router.Apply.System.{System}
use mini_router.Apply.Action.{World, Out, ret, cut, M}
use mini_router.Apply.Action.Triple.{
  Triple, Triple-bind, Triple-gets, Triple-if, Triple-now, Triple-pure, Triple-effect, Triple-post,
  Triple-pre, Triple-known, Keeps, IsStable, Holds,
}
use mini_router.Apply.Archive.{remove_file, listed, entry_of}
use mini_router.Apply.Pending.{clear_pending, remove_marker}
use mini_router.Apply.Restore.{undo_lists, drop_staged}
use mini_router.Apply.Restore.Stable.{Keeps-keep_rejected}
use mini_router.Apply.Restore.PutBack.{Any, Matches, restore-put_back}
use mini_router.Apply.Revision.{set_result}
use mini_router.Apply.Rollback.{link_config, finish_boot, boot_marker, rollback_at_boot}
use mini_router.Apply.Rollback.Stable.{Keeps-link_config}

-- A path that the rollback writes only with the snapshot's content: it is not secrets.yaml, whose
-- password stays, and no staged copy.
pub record IsPlain (q : FilePath) : Type 0 where
  pub not_secrets : path_eq secrets_path q ≡ false
  pub not_staged_config : path_eq staged_config q ≡ false
  pub not_staged_secrets : path_eq staged_secrets q ≡ false

module _ (sys : System) (q : FilePath) (v : Option String) (plain : IsPlain q) where
  abbrev Right : Disk → Type 0
  Right d = d.files q ≡ v

  loose : {A : Type 0} {m : M A} → Keeps Right m → Triple Right Any m (λ _. Right)
  loose k = Triple-post _ (λ d h. tt) (λ a d h. h) k.triple

  remove-Right :
      (p : FilePath) → path_eq p q ≡ false → Triple Right Any (remove_file p) (λ _. Right)
  remove-Right p e = Triple-effect _ (λ d h. tt) (λ d h. rw e h)

  drop_staged-Right : Triple Right Any drop_staged (λ _. Right)
  unfolding drop_staged
  drop_staged-Right =
      Triple-bind _ _ (remove-Right staged_config plain.not_staged_config)
        (λ _. remove-Right staged_secrets plain.not_staged_secrets)

  link_config-Right : (o : Option sys.Config) → Triple Right Any (link_config sys o) (λ _. Right)
  link_config-Right o = loose (Keeps-link_config (λ d l h. h) sys o)

  pub record Settled (d : Disk) : Type 0 where
    pub cleared : d.marker ≡ absent
    pub right : d.files q ≡ v

  clear-Settled :
      ((n : ℕ) → sys.remove_fails n ≡ false)
      → Triple Right Any (clear_pending sys "") (λ _. Settled)
  unfolding clear_pending remove_marker
  clear-Settled removes =
      Triple-bind _ _ (Triple-gets {Q = λ _. Right} (λ d. d.marker) (λ d h. h)) (λ m.
        Triple-bind _ _ (Triple-now (λ n d h. h)) (λ n.
          Triple-if (sys.remove_fails n) _ _ (λ e. absurd (both (removes n) e))
            (λ _. Triple-effect _ (λ d h. tt) (λ d h. record { cleared = refl; right = h }))))
    where
      both : {b : Bool} → b ≡ false → b ≡ true → ⊥
      both e h = cc

  set_result-Settled :
      (snap : String) → Triple Settled Any (set_result snap "rolled back at boot") (λ _. Settled)
  unfolding set_result
  set_result-Settled snap =
      Triple-effect _ (λ d h. tt) (λ d h. record { cleared = h.cleared; right = h.right })

  finish_boot-Settled :
      ((n : ℕ) → sys.remove_fails n ≡ false)
      → (p : PendingApply) → p.list_snapshot ≡ ""
      → Triple Right Any (finish_boot sys p true) (λ b d. (b ≡ true) × Settled d)
  unfolding finish_boot
  finish_boot-Settled removes p none_listed = Triple-bind _ _ drop_staged-Right (λ _.
      Triple-bind _ _ no_lists (λ _. Triple-bind _ _ (Triple-gets _ (λ d h. h)) (λ c.
        Triple-bind _ _ (link_config-Right c) (λ _. Triple-bind _ _ (clear-Settled removes) (λ _.
          Triple-bind _ _ (set_result-Settled p.snapshot)
            (λ _. Triple-pure true (λ d h. (refl, h))))))))
    where
      no_lists : Triple Right Any (undo_lists sys p.list_snapshot) (λ _. Right)
      no_lists = rw none_listed (unfold undo_lists in Triple-pure tt (λ d h. h))

  by_done :
      ((n : ℕ) → sys.remove_fails n ≡ false)
      → (p : PendingApply) (done : Bool) → p.list_snapshot ≡ ""
      → Triple
          (λ d. (done ≡ true) × Right d)
          Any
          (finish_boot sys p done)
          (λ b d. (b ≡ true) × Settled d)
  by_done removes p true l = Triple-pre _ (λ d h. h.1) (finish_boot-Settled removes p l)
  by_done removes p false l = record { at = λ w h. cc h.0 }

module _ (sys : System) (no_error : (n : ℕ) (p : FilePath) → sys.io_fails n p ≡ false)
    (removes : (n : ℕ) → sys.remove_fails n ≡ false) (q : FilePath) (plain : IsPlain q)
    (s : Snapshot) where
  kept-IsStable : (snap : String) → IsStable (λ d. snap_of snap d.snaps ≡ some s)
  kept-IsStable snap = record {
    on_files = λ d f h. h;
    on_links = λ d l h. h;
    on_revisions = λ d r h. h;
    on_lists = λ d t h. h;
  }

  boot_marker-Settled :
      (p : PendingApply) (lists : String) (v : Option String)
      → p.list_snapshot ≡ ""
      → All (Matches q v) s.entries
      → listed q s.covered ≡ true
      → entry_of q s.entries ≡ v
      → Triple
          (λ d. snap_of p.snapshot d.snaps ≡ some s)
          Any
          (boot_marker sys (marked p) lists)
          (λ b d. (b ≡ true) × Settled sys q v plain d)
  unfolding boot_marker
  boot_marker-Settled p lists v none_listed m lq ev =
      Triple-bind _ _
        (Triple-post _ (λ d h. tt) (λ a d h. h)
          (Keeps-keep_rejected (kept-IsStable p.snapshot) sys p.snapshot).triple)
        (λ _.
          Triple-bind _ _ (restore-put_back sys no_error q v plain.not_secrets p.snapshot s m lq ev)
            (λ done. by_done sys q v plain removes p done none_listed))

  boot_marker-of :
      (m : Marker) (p : PendingApply) (lists : String) (v : Option String)
      → m ≡ marked p
      → p.list_snapshot ≡ ""
      → All (Matches q v) s.entries
      → listed q s.covered ≡ true
      → entry_of q s.entries ≡ v
      → Triple
          (λ d. snap_of p.snapshot d.snaps ≡ some s)
          Any
          (boot_marker sys m lists)
          (λ b d. (b ≡ true) × Settled sys q v plain d)
  boot_marker-of m p lists v e l a lq ev =
      subst
        (λ x.
          Triple (λ d. snap_of p.snapshot d.snaps ≡ some s) Any (boot_marker sys x lists)
            (λ b d. (b ≡ true) × Settled sys q v plain d))
        (sym e) (boot_marker-Settled p lists v l a lq ev)

  returned :
      (r : Out Bool) (w : World) (v : Option String)
      → Holds Any (λ b d. (b ≡ true) × Settled sys q v plain d) none r w
      → (r ≡ ret true) × (w.disk.marker ≡ absent) × (w.disk.files q ≡ v)
  returned (ret b) w v h = (ap ret h.0.0, h.0.1.cleared, h.0.1.right)
  returned cut w v h = absurd (h.2 refl)

  -- On a machine that stays up and whose writes and removals succeed, with a marker that names a
  -- snapshot on the disk and no list files: the rollback at boot returns without an error, the marker is gone, and a
  -- path that the snapshot covers, if it is not secrets.yaml and no staged copy, has the content
  -- that the snapshot has for it, or is missing if it has none.
  pub rollback_at_boot-put_back :
      (w : World) (p : PendingApply) (v : Option String)
      → w.cut_at ≡ none
      → w.disk.marker ≡ marked p
      → p.list_snapshot ≡ ""
      → snap_of p.snapshot w.disk.snaps ≡ some s
      → All (Matches q v) s.entries
      → listed q s.covered ≡ true
      → entry_of q s.entries ≡ v
      → ((rollback_at_boot sys w).0 ≡ ret true)
        × ((rollback_at_boot sys w).1.disk.marker ≡ absent)
        × ((rollback_at_boot sys w).1.disk.files q ≡ v)
  rollback_at_boot-put_back w p v up me l kept m lq ev =
      let (r, w') = rollback_at_boot sys w in
      returned r w' v (
        subst (λ c. Holds Any (λ b d. (b ≡ true) × Settled sys q v plain d) c r w') up
          (whole.at w (kept, me)))
    where
      whole :
          Triple
            (λ d. (snap_of p.snapshot d.snaps ≡ some s) × (d.marker ≡ marked p))
            Any
            (rollback_at_boot sys)
            (λ b d. (b ≡ true) × Settled sys q v plain d)
      whole =
          unfold rollback_at_boot in
          Triple-bind _ _
            (Triple-gets {Q = λ x d. (snap_of p.snapshot d.snaps ≡ some s) × (x ≡ marked p)}
              (λ d. d.marker) (λ d h. h))
            (λ x. Triple-known {P = λ d. snap_of p.snapshot d.snaps ≡ some s} (λ e.
              Triple-bind _ _ (Triple-gets (λ d. d.list_marker) (λ d h. h))
                (λ lists. boot_marker-of x p lists v e l m lq ev)))
