-- ===== src/Apply/Confirm.antt =====
-- Settling a pending change: confirmTransition, finishConfirm, rollbackIfUnconfirmed, and
-- revertNow. lockPending makes each of the
-- transitions one step of the interleavings.
pub mod Race
use text.Mathlib.Text.{◌==◌ as str_eq}
use mini_router.Prelude.{ℕ, Bool, true, false, not, String, Option, none, some, if◌then◌else◌}
use mini_router.Apply.Disk.{
  Files, Disk, Marker, absent, unreadable, marked, PendingApply, State, applying, pending,
  reverting, config_path, secrets_path, accepted_config, accepted_secrets, staged_config,
  staged_secrets,
}
use mini_router.Apply.System.{System}
use mini_router.Apply.Action.{M, ◌>>=◌, ◌>>◌, pure, gets, effect}
use mini_router.Apply.Archive.{exists}
use mini_router.Apply.Pending.{read_pending, clear_pending, start_revert, set_pending, interrupted}
use mini_router.Apply.Restore.{restore, undo_lists, accept_staged}
use mini_router.Apply.Revision.{set_result}
use mini_router.Apply.Rollback.{Undone, rollback, settle_runtime}

-- What a confirmation came to: nothing to confirm, a refusal, or a kept change.
pub data Confirmed : Type 0 where
  nothing still_running being_reverted kept : Confirmed

module _ (sys : System) where
  -- the config that the change leaves accepted
  commit_config : Files → Option sys.Config
  commit_config f =
      if exists f staged_config
      then sys.load (f staged_config) (f staged_secrets)
      else sys.load (f accepted_config) (f accepted_secrets)

  commit : Option sys.Config → M Unit
  commit none = pure tt
  commit (some c) = effect (λ d. record d { files = sys.net_commit c d.files })

  record_result : Marker → M Unit
  record_result absent = pure tt
  record_result unreadable = pure tt
  record_result (marked p) = set_result p.snapshot "confirmed"

  -- confirmTransition from a marker that may be confirmed, and finishConfirm
  keep_change : Marker → Option sys.Config → M Confirmed
  keep_change m c = do
    clear_pending sys ""
    effect (λ d. record d { list_marker = "" })
    accept_staged
    commit c
    record_result m
    pure kept

  confirm_marked : PendingApply → State → M Confirmed
  confirm_marked p applying = pure still_running
  confirm_marked p reverting = pure being_reverted
  confirm_marked p pending = do c ← gets (λ d. commit_config d.files); keep_change (marked p) c

  confirm_marker : Marker → M Confirmed
  confirm_marker absent = pure nothing
  confirm_marker unreadable = keep_change unreadable none
  confirm_marker (marked p) = confirm_marked p p.state

  -- confirm
  unfoldable pub confirm : M Confirmed
  unfolding commit_config commit record_result keep_change confirm_marked confirm_marker
  confirm = do m ← read_pending; confirm_marker m

  -- rollbackIfUnconfirmed, when its timer has run out; none: there was nothing of its own to undo
  rollback_started : Option PendingApply → String → M (Option Undone)
  rollback_started none snap = pure none
  rollback_started (some p) snap = do u ← rollback sys snap; pure (some u)

  unfoldable pub rollback_if_unconfirmed : String → M (Option Undone)
  unfolding rollback_started
  rollback_if_unconfirmed snap = do p ← start_revert sys snap; rollback_started p snap

  -- revertNow
  revert_started : Option PendingApply → M (Option Undone)
  revert_started none = pure none
  revert_started (some p) = do u ← rollback sys p.snapshot; pure (some u)

  unfoldable pub revert_now : M (Option Undone)
  unfolding revert_started
  revert_now = do p ← start_revert sys ""; revert_started p
