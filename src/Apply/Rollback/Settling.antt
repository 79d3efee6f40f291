-- ===== src/Apply/Rollback/Settling.antt =====
-- What a rollback keeps wherever the power goes: every predicate that sees only the marker and the
-- snapshots, and survives the removal of the marker.
use mini_router.Prelude.{Bool, true, false, String, List}
use mini_router.Apply.Disk.{Disk, Revision, Marker, absent, unreadable, marked, PendingApply}
use mini_router.Apply.System.{System}
use mini_router.Apply.Action.{effect}
use mini_router.Apply.Action.Triple.{
  Keeps, Keeps-bind, Keeps-gets, Keeps-effect, keeps_rules, IsStable, IsSettling,
}
use mini_router.Apply.Pending.{clear_pending, remove_marker}
use mini_router.Apply.Revision.{set_result, new_revision}
use mini_router.Apply.Restore.Stable.{
  Keeps-restore, Keeps-keep_rejected, Keeps-undo_lists, Keeps-drop_staged,
}
use mini_router.Apply.Rollback.{
  rollback, finish_rollback, set_aside, finish_boot, boot_marker, rollback_at_boot,
}
use mini_router.Apply.Rollback.Stable.{Keeps-settle_runtime, Keeps-link_config}

module _ {I : Disk → Type 0} (st : IsStable I) where
  Keeps-revisions :
      (f : Disk → List Revision) → Keeps I (effect (λ d. record d { revisions = f d }))
  Keeps-revisions f = Keeps-effect _ (λ d h. st.on_revisions d (f d) h)

  pub Keeps-set_result : (snap result : String) → Keeps I (set_result snap result)
  unfolding set_result
  Keeps-set_result snap result = Keeps-revisions _

  pub Keeps-new_revision : (snap via : String) → Keeps I (new_revision snap via)
  unfolding new_revision
  Keeps-new_revision snap via = Keeps-revisions _

module _ {I : Disk → Type 0} (st : IsSettling I) where
  Keeps-clear : Keeps I (effect (λ d. record d { marker = absent }))
  Keeps-clear = Keeps-effect _ st.on_absent

  Keeps-remove_marker : (sys : System) → Keeps I (remove_marker sys)
  unfolding remove_marker
  Keeps-remove_marker sys = search (keeps_rules, Keeps-clear)

  pub Keeps-clear_pending : (sys : System) (snap : String) → Keeps I (clear_pending sys snap)
  unfolding clear_pending
  Keeps-clear_pending sys snap = search (keeps_rules, Keeps-remove_marker)

module _ {I : Disk → Type 0} (st : IsSettling I) (sys : System) where
  Keeps-finish_rollback :
      (snap lists : String) (done : Bool) → Keeps I (finish_rollback sys snap lists done)
  unfolding finish_rollback
  Keeps-finish_rollback snap lists false = search keeps_rules
  Keeps-finish_rollback snap lists true = Keeps-bind _ _ (Keeps-drop_staged st.stable) (λ _.
      Keeps-bind _ _ (Keeps-undo_lists st.stable sys lists) (λ _.
        Keeps-bind _ _ (Keeps-gets _) (λ c.
          Keeps-bind _ _ (Keeps-settle_runtime st.stable sys c)
            (λ _. search (keeps_rules, Keeps-clear_pending st sys, Keeps-set_result st.stable)))))

  pub Keeps-rollback : (snap : String) → Keeps I (rollback sys snap)
  unfolding rollback
  Keeps-rollback snap =
      search
        (keeps_rules, Keeps-keep_rejected st.stable, Keeps-restore st.stable, Keeps-finish_rollback)
        depth 8

  Keeps-finish_boot : (p : PendingApply) (done : Bool) → Keeps I (finish_boot sys p done)
  unfolding finish_boot set_aside
  Keeps-finish_boot p false = search (keeps_rules, Keeps-clear st)
  Keeps-finish_boot p true = Keeps-bind _ _ (Keeps-drop_staged st.stable) (λ _.
      Keeps-bind _ _ (Keeps-undo_lists st.stable sys p.list_snapshot) (λ _.
        Keeps-bind _ _ (Keeps-gets _) (λ c.
          Keeps-bind _ _ (Keeps-link_config st.stable.on_links sys c)
            (λ _. search (keeps_rules, Keeps-clear_pending st sys, Keeps-set_result st.stable)))))

  Keeps-boot_marker : (m : Marker) (lists : String) → Keeps I (boot_marker sys m lists)
  unfolding boot_marker set_aside
  Keeps-boot_marker absent lists = search (keeps_rules, Keeps-undo_lists st.stable)
  Keeps-boot_marker unreadable lists = search (keeps_rules, Keeps-clear st)
  Keeps-boot_marker (marked p) lists =
      search
        (keeps_rules, Keeps-keep_rejected st.stable, Keeps-restore st.stable, Keeps-finish_boot)
        depth 8

  pub Keeps-rollback_at_boot : Keeps I (rollback_at_boot sys)
  unfolding rollback_at_boot
  Keeps-rollback_at_boot = search (keeps_rules, Keeps-boot_marker)
