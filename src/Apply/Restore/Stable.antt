-- ===== src/Apply/Restore/Stable.antt =====
-- Putting a snapshot back leaves the marker and the snapshots alone.
use text.Mathlib.Text.{◌==◌ as str_eq}
use mini_router.Prelude.{Bool, false, String, Option, none, some, List, [], ◌∷◌, if◌then◌else◌}
use mini_router.Apply.Disk.{FilePath, Files, Snapshot, Disk}
use mini_router.Apply.System.{System}
use mini_router.Apply.Action.{◌>>◌, pure, effect}
use mini_router.Apply.Action.Triple.{
  Keeps, Keeps-bind, Keeps-gets, Keeps-if, Keeps-pure, keeps_rules, Keeps-effect, IsStable,
}
use mini_router.Apply.Archive.{remove_file, write_atomic, entry_of}
use mini_router.Apply.Restore.{
  restore_entries, stop_and_disable, remove_service_file, remove_uncovered, remove_missing,
  restore_removed, restore_snapshot, restore, keep_if_differs, keep_rejected_file, keep_rejected,
  undo_lists, stage_file, stage_accepted, rename_file, accept_file, accept_staged, drop_staged,
  removed_wan_service,
}

module _ {I : Disk → Type 0} (st : IsStable I) where
  pub Keeps-files : (f : Disk → Files) → Keeps I (effect (λ d. record d { files = f d }))
  Keeps-files f = Keeps-effect _ (λ d h. st.on_files d (f d) h)

  pub Keeps-links : (f : Disk → String → Bool) → Keeps I (effect (λ d. record d { links = f d }))
  Keeps-links f = Keeps-effect _ (λ d h. st.on_links d (f d) h)

  pub Keeps-lists : (s : String) → Keeps I (effect (λ d. record d { list_marker = s }))
  Keeps-lists s = Keeps-effect _ (λ d h. st.on_lists d s h)

  pub Keeps-remove_file : (p : FilePath) → Keeps I (remove_file p)
  Keeps-remove_file p = Keeps-files _

  pub Keeps-write_atomic :
      (sys : System) (p : FilePath) (s : String) → Keeps I (write_atomic sys p s)
  unfolding write_atomic
  Keeps-write_atomic sys p s = search (keeps_rules, Keeps-files)

module _ {I : Disk → Type 0} (st : IsStable I) (sys : System) where
  Keeps-restore_entries : (l : List (FilePath × String)) → Keeps I (restore_entries sys l)
  unfolding restore_entries
  Keeps-restore_entries [] = search keeps_rules
  Keeps-restore_entries ((p, s) ∷ l) = Keeps-bind _ _ (Keeps-gets _) (λ text.
      Keeps-bind _ _ (Keeps-write_atomic st sys p text)
        (λ done. Keeps-if done _ _ (Keeps-restore_entries l) (Keeps-pure false)))

  pub Keeps-stop_and_disable : (s : String) → Keeps I (stop_and_disable sys s)
  unfolding stop_and_disable
  Keeps-stop_and_disable s = search (keeps_rules, Keeps-links st)

  Keeps-remove_service_file :
      (p : FilePath) (s : String) (stopped : List String)
      → Keeps I (remove_service_file sys p s stopped)
  unfolding remove_service_file
  Keeps-remove_service_file p s stopped =
      search (keeps_rules, Keeps-remove_file st, Keeps-stop_and_disable)

  Keeps-remove_missing :
      (stop : Bool) (p : FilePath) (o : Option String) (stopped : List String)
      → Keeps I (remove_missing sys stop p o stopped)
  unfolding remove_missing
  Keeps-remove_missing stop p (some _) stopped = search keeps_rules
  Keeps-remove_missing stop p none stopped = by_service (removed_wan_service p)
    where
      by_service : (o : Option String) → Keeps I (remove_uncovered sys stop p o stopped)
      by_service none = unfold remove_uncovered in search (keeps_rules, Keeps-remove_file st)
      by_service (some s) =
          unfold remove_uncovered in
          search (keeps_rules, Keeps-remove_file st, Keeps-remove_service_file)

  Keeps-restore_removed :
      (stop : Bool) (e : List (FilePath × String)) (l : List FilePath) (stopped : List String)
      → Keeps I (restore_removed sys stop e l stopped)
  unfolding restore_removed
  Keeps-restore_removed stop e [] stopped = search keeps_rules
  Keeps-restore_removed stop e (p ∷ l) stopped =
      Keeps-bind _ _ (Keeps-remove_missing stop p (entry_of p e) stopped)
        (λ stopped'. Keeps-restore_removed stop e l stopped')

  Keeps-restore_snapshot :
      (stop : Bool) (o : Option Snapshot) → Keeps I (restore_snapshot sys stop o)
  unfolding restore_snapshot
  Keeps-restore_snapshot stop none = search keeps_rules
  Keeps-restore_snapshot stop (some s) =
      search (keeps_rules, Keeps-restore_entries, Keeps-restore_removed)

  pub Keeps-restore : (snap : String) (stop : Bool) → Keeps I (restore sys snap stop)
  unfolding restore
  Keeps-restore snap stop = search (keeps_rules, Keeps-restore_snapshot)

  Keeps-keep_if_differs :
      (live rejected : FilePath) (o : Option Snapshot) (c : Option String)
      → Keeps I (keep_if_differs sys live rejected o c)
  unfolding keep_if_differs
  Keeps-keep_if_differs live rejected none c = search keeps_rules
  Keeps-keep_if_differs live rejected (some s) none = search keeps_rules
  Keeps-keep_if_differs live rejected (some s) (some cur) = by_entry (entry_of live s.entries)
    where
      by_entry :
          (o : Option String)
          → Keeps I (elim o [
            | none ↦ pure tt
            | some old ↦
                if str_eq old cur then pure tt else (do write_atomic sys rejected cur; pure tt)
          ])
      by_entry none = search keeps_rules
      by_entry (some old) = search (keeps_rules, Keeps-write_atomic st)

  pub Keeps-keep_rejected : (snap : String) → Keeps I (keep_rejected sys snap)
  unfolding keep_rejected keep_rejected_file
  Keeps-keep_rejected snap = search (keeps_rules, Keeps-keep_if_differs) depth 8

  pub Keeps-undo_lists : (snap : String) → Keeps I (undo_lists sys snap)
  unfolding undo_lists
  Keeps-undo_lists snap = search (keeps_rules, Keeps-restore, Keeps-lists st)

  Keeps-stage_file : (live staged : FilePath) → Keeps I (stage_file sys live staged)
  unfolding stage_file
  Keeps-stage_file live staged = Keeps-bind _ _ (Keeps-gets _) by_content
    where
      by_content :
          (o : Option String)
          → Keeps I (elim o [
            | none ↦ remove_file staged
            | some s ↦ (do write_atomic sys staged s; pure tt)
          ])
      by_content none = search (keeps_rules, Keeps-remove_file st)
      by_content (some s) = search (keeps_rules, Keeps-write_atomic st)

  pub Keeps-stage_accepted : Keeps I (stage_accepted sys)
  unfolding stage_accepted
  Keeps-stage_accepted = search (keeps_rules, Keeps-stage_file)

module _ {I : Disk → Type 0} (st : IsStable I) where
  Keeps-rename_file :
      (staged accepted : FilePath) (o : Option String) → Keeps I (rename_file staged accepted o)
  unfolding rename_file
  Keeps-rename_file staged accepted none = search keeps_rules
  Keeps-rename_file staged accepted (some s) = Keeps-files st _

  pub Keeps-accept_staged : Keeps I accept_staged
  unfolding accept_staged accept_file
  Keeps-accept_staged = search (keeps_rules, Keeps-rename_file) depth 8

  pub Keeps-drop_staged : Keeps I drop_staged
  unfolding drop_staged
  Keeps-drop_staged = search (keeps_rules, Keeps-remove_file st)
