-- ===== src/Apply/Restore.antt =====
-- Putting a snapshot back: restore, removedWANService, stopAndDisableService, keepPassword,
-- keepRejected, undoLists, and the record of the accepted config.
use Prim.Native.String.{◌++◌}
pub mod Stable
pub mod PutBack
use text.Mathlib.Text.{◌==◌ as str_eq, starts_with}
use mini_router.Prelude.{
  ℕ, Bool, true, false, not, ◌&&◌, ◌||◌, String, Option, none, some, List, [], ◌∷◌, if◌then◌else◌,
}
use mini_router.Apply.Disk.{
  FilePath, path_eq, Files, Snapshot, Disk, snap_of, config_path, secrets_path, accepted_config,
  accepted_secrets, staged_config, staged_secrets, etc,
}
use mini_router.Apply.System.{System}
use mini_router.Apply.Action.{M, ◌>>=◌, ◌>>◌, pure, gets, now, effect}
use mini_router.Apply.Archive.{put_file, remove_file, write_atomic, named, entry_of}

abbrev Secrets : Type 0
Secrets = List (String × String)

abbrev pub secret_of : String → Secrets → Option String
secret_of k [] = none
secret_of k ((j, v) ∷ m) = if str_eq j k then some v else secret_of k m

abbrev pub set_secret : String → String → Secrets → Secrets
set_secret k v [] = (k, v) ∷ []
set_secret k v ((j, w) ∷ m) =
    let rest = set_secret k v m in if str_eq j k then (k, v) ∷ m else (j, w) ∷ rest

abbrev pub password_key : String
password_key = "webui_password"

-- the per-WAN service whose wrapper or credentials a path is ("" in the source: none)
unfoldable pub removed_wan_service : FilePath → Option String
removed_wan_service p =
    if str_eq p.dir "/etc/init.d"
      && (starts_with p.base "mr-pppoe." || starts_with p.base "mr-udhcpc.")
    then some p.base
    else if str_eq p.dir "/etc/ppp/peers" && not (str_eq p.base "")
    then some ("mr-pppoe." ++ p.base)
    else none

module _ (sys : System) where
  secrets_of : Option String → Secrets
  secrets_of none = []
  secrets_of (some s) = elim (sys.yaml_map s) [ none ↦ [] | some m ↦ m ]

  with_password : String → String → Secrets → String
  with_password content cur old =
      if str_eq (elim (secret_of password_key old) [ none ↦ "" | some v ↦ v ]) cur
      then content
      else elim (sys.yaml_text (set_secret password_key cur old)) [ none ↦ content | some s ↦ s ]

  -- keepPassword: what a snapshot's secrets.yaml becomes, with the password as it is now
  unfoldable pub keep_password : Option String → String → String
  unfolding secrets_of with_password
  keep_password now_secrets content = elim (secret_of password_key (secrets_of now_secrets)) [
    | none ↦ content
    | some cur ↦ elim (sys.yaml_map content) [
      | none ↦ content
      | some old ↦ with_password content cur old
    ]
  ]

  restored_text : Files → FilePath → String → String
  restored_text f p content =
      if path_eq secrets_path p then keep_password (f secrets_path) content else content

  -- the files of the archive; false is the error of a write
  restore_entries : List (FilePath × String) → M Bool
  restore_entries [] = pure true
  restore_entries ((p, content) ∷ l) = do
    text ← gets (λ d. restored_text d.files p content)
    done ← write_atomic sys p text
    if done then restore_entries l else pure false

  -- stopAndDisableService: true if the service was stopped
  unfoldable pub stop_and_disable : String → M Bool
  stop_and_disable s = do
    n ← now
    effect (λ d. record d { links = λ x. if str_eq x s then false else d.links x })
    pure (not (sys.stop_fails n s))

  remove_service_file : FilePath → String → List String → M (List String)
  remove_service_file p s stopped = if named s stopped then (do remove_file p; pure stopped) else do
    done ← stop_and_disable s
    if done then (do remove_file p; pure (s ∷ stopped)) else pure stopped

  remove_uncovered : Bool → FilePath → Option String → List String → M (List String)
  remove_uncovered stop p none stopped = do remove_file p; pure stopped
  remove_uncovered stop p (some s) stopped =
      if stop then remove_service_file p s stopped else (do remove_file p; pure stopped)

  remove_missing : Bool → FilePath → Option String → List String → M (List String)
  remove_missing stop p (some _) stopped = pure stopped
  remove_missing stop p none stopped = remove_uncovered stop p (removed_wan_service p) stopped

  -- the paths of .mr-paths that the archive has no file for
  restore_removed : Bool → List (FilePath × String) → List FilePath → List String → M Unit
  restore_removed stop entries [] stopped = pure tt
  restore_removed stop entries (p ∷ covered) stopped = do
    stopped' ← remove_missing stop p (entry_of p entries) stopped
    restore_removed stop entries covered stopped'

  pub restore_snapshot : Bool → Option Snapshot → M Bool
  restore_snapshot stop none = pure false
  restore_snapshot stop (some s) = do
    done ← restore_entries s.entries
    if done then (do restore_removed stop s.entries s.covered []; pure true) else pure false

  -- restore; the services that need a restart are not part of the disk
  unfoldable pub restore : String → Bool → M Bool
  unfolding restored_text remove_uncovered remove_missing restore_entries remove_service_file
      restore_removed restore_snapshot
  restore snap stop = do found ← gets (λ d. snap_of snap d.snaps); restore_snapshot stop found

  keep_if_differs : FilePath → FilePath → Option Snapshot → Option String → M Unit
  keep_if_differs live rejected none cur = pure tt
  keep_if_differs live rejected (some s) none = pure tt
  keep_if_differs live rejected (some s) (some cur) = elim (entry_of live s.entries) [
    | none ↦ pure tt
    | some old ↦ if str_eq old cur then pure tt else (do write_atomic sys rejected cur; pure tt)
  ]

  keep_rejected_file : String → FilePath → FilePath → M Unit
  keep_rejected_file snap live rejected = do
    found ← gets (λ d. snap_of snap d.snaps)
    cur ← gets (λ d. d.files live)
    keep_if_differs live rejected found cur

  -- keepRejected
  unfoldable pub keep_rejected : String → M Unit
  unfolding keep_rejected_file keep_if_differs
  keep_rejected snap = do
    keep_rejected_file snap config_path (etc "router.yaml.rejected")
    keep_rejected_file snap secrets_path (etc "secrets.yaml.rejected")

  -- undoLists
  unfoldable pub undo_lists : String → M Unit
  undo_lists snap = if str_eq snap "" then pure tt else do
    done ← restore snap true
    if done then effect (λ d. record d { list_marker = "" }) else pure tt

  stage_file : FilePath → FilePath → M Unit
  stage_file live staged = do
    cur ← gets (λ d. d.files live)
    elim cur [ some s ↦ (do write_atomic sys staged s; pure tt) | none ↦ remove_file staged ]

  -- stageAccepted
  unfoldable pub stage_accepted : M Unit
  unfolding stage_file
  stage_accepted = do stage_file config_path staged_config; stage_file secrets_path staged_secrets

rename_file : FilePath → FilePath → Option String → M Unit
rename_file staged accepted none = pure tt
rename_file staged accepted (some s) =
    effect (λ d. put_file staged none (put_file accepted (some s) d))

accept_file : FilePath → FilePath → M Unit
accept_file staged accepted = do s ← gets (λ d. d.files staged); rename_file staged accepted s

-- acceptStaged: renames
unfoldable pub accept_staged : M Unit
unfolding accept_file rename_file
accept_staged = do
  accept_file staged_config accepted_config
  accept_file staged_secrets accepted_secrets

-- dropStaged
unfoldable pub drop_staged : M Unit
drop_staged = do remove_file staged_config; remove_file staged_secrets
