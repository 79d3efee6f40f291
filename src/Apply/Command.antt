-- ===== src/Apply/Command.antt =====
-- `mr rollback`, after its flags and not for the number of a change: rollbackCommand.
pub mod Settles
use text.Mathlib.Text.{◌==◌ as str_eq}
use mini_router.Prelude.{
  Bool, true, false, not, String, Option, none, some, List, [], ◌∷◌, ◌++◌, map, if◌then◌else◌,
}
use mini_router.Apply.Disk.{
  FilePath, Files, Disk, Marker, absent, unreadable, marked, PendingApply, State, applying, pending,
  reverting, config_path, secrets_path, accepted_config, accepted_secrets, staged_config,
  staged_secrets,
}
use mini_router.Apply.System.{System}
use mini_router.Apply.Action.{M, ◌>>=◌, ◌>>◌, pure, gets}
use mini_router.Apply.Archive.{exists, sort_names}
use mini_router.Apply.Pending.{read_pending, clear_pending, set_pending, interrupted}
use mini_router.Apply.Restore.{restore, undo_lists}
use mini_router.Apply.Revision.{set_result}
use mini_router.Apply.Rollback.{settle_runtime}

pub data CommandResult : Type 0 where
  running no_snapshots failed restored : CommandResult

-- strings.TrimSuffix
unfoldable pub trim_suffix : String → String → String
trim_suffix suffix String.[] = String.[]
trim_suffix suffix (String.◌∷◌ c s) =
    let rest = trim_suffix suffix s in
    if str_eq (String.◌∷◌ c s) suffix then String.[] else String.◌∷◌ c rest

unfoldable pub with_suffix : String → String → String
with_suffix String.[] t = t
with_suffix (String.◌∷◌ c s) t = String.◌∷◌ c (with_suffix s t)

-- revFile
unfoldable pub rev_file : String → String
rev_file snap = with_suffix (trim_suffix ".tar.gz" snap) ".json"

unfoldable pub present : Files → List FilePath → List String
present f [] = []
present f (p ∷ l) = let rest = present f l in if exists f p then p.base ∷ rest else rest

-- the names in the history's directory
unfoldable pub entries : Disk → List String
entries d =
    map (λ e. e.0) d.snaps
    ++ map (λ r. rev_file r.snapshot) d.revisions
    ++ present d.files (accepted_config ∷ accepted_secrets ∷ staged_config ∷ staged_secrets ∷ [])

unfoldable pub last_of : List String → Option String
last_of [] = none
last_of (x ∷ []) = some x
last_of (x ∷ y ∷ l) = last_of (y ∷ l)

module _ (sys : System) where
  is_running : Marker → Bool
  is_running absent = false
  is_running unreadable = false
  is_running (marked p) = elim p.state [
    | applying ↦ not (interrupted sys p)
    | pending ↦ false
    | reverting ↦ false
  ]

  unfoldable pub snapshot_for : Option String → Marker → Disk → Option String
  snapshot_for (some a) m d = some a
  snapshot_for none (marked p) d = some p.snapshot
  snapshot_for none absent d = last_of (sort_names sys (entries d))
  snapshot_for none unreadable d = last_of (sort_names sys (entries d))

  mark_state : PendingApply → State → M Unit
  mark_state p applying = do set_pending sys (record p { state = reverting }); pure tt
  mark_state p pending = do set_pending sys (record p { state = reverting }); pure tt
  mark_state p reverting = pure tt

  mark_reverting : Marker → M Unit
  mark_reverting absent = pure tt
  mark_reverting unreadable = pure tt
  mark_reverting (marked p) = mark_state p p.state

  original : State → State
  original applying = applying
  original pending = pending
  original reverting = pending

  unmark : Marker → M Unit
  unmark absent = pure tt
  unmark unreadable = pure tt
  unmark (marked p) = do set_pending sys (record p { state = original p.state }); pure tt

  undo_marked_lists : Marker → M Unit
  undo_marked_lists absent = pure tt
  undo_marked_lists unreadable = pure tt
  undo_marked_lists (marked p) = undo_lists sys p.list_snapshot

  record_reverted : Marker → M Unit
  record_reverted absent = pure tt
  record_reverted unreadable = pure tt
  record_reverted (marked p) = set_result p.snapshot "rolled back: reverted"

  finish_command : Marker → Bool → M CommandResult
  finish_command m false = do unmark m; pure failed
  finish_command m true = do
    undo_marked_lists m
    c ← gets (λ d. sys.load (d.files config_path) (d.files secrets_path))
    settle_runtime sys c
    clear_pending sys ""
    record_reverted m
    pure restored

  roll_to : Marker → Option String → M CommandResult
  roll_to m none = pure no_snapshots
  roll_to m (some snap) = do mark_reverting m; done ← restore sys snap true; finish_command m done

  command_on : Option String → Marker → M CommandResult
  command_on arg m =
      if is_running m then pure running else (do snap ← gets (snapshot_for arg m); roll_to m snap)

  -- rollbackCommand
  unfoldable pub rollback_command : Option String → M CommandResult
  unfolding is_running mark_state mark_reverting original unmark undo_marked_lists record_reverted
      finish_command roll_to command_on
  rollback_command arg = do m ← read_pending; command_on arg m
