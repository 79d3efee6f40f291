-- ===== src/Apply/Pending.antt =====
-- The pending marker of mr/apply.go: readPending, pendingBlocks, claimPending, setPending,
-- clearPending, startRevert, armConfirm.
pub mod Claim
use text.Mathlib.Text.{◌==◌ as str_eq}
use mini_router.Prelude.{
  ℕ, ◌+◌, ◌-◌, Bool, true, false, not, ◌&&◌, ◌||◌, String, Option, none, some, if◌then◌else◌, ltb,
}
use mini_router.Apply.Disk.{
  Disk, Marker, absent, unreadable, marked, PendingApply, State, applying, pending, reverting,
}
use mini_router.Apply.System.{System}
use mini_router.Apply.Action.{M, ◌>>=◌, ◌>>◌, pure, gets, now, effect}

-- Why a new change is refused.
pub data Refusal : Type 0 where
  unreadable_marker interrupted_apply running_apply reverting_change : Refusal
  waiting : ℕ → Refusal

abbrev pub read_pending : M Marker
read_pending = gets (λ d. d.marker)

abbrev pub is_pending : State → Bool
is_pending applying = false
is_pending pending = true
is_pending reverting = false

-- the list snapshot of the marker, if it is the one of `snap`
unfoldable pub list_snapshot_of : String → Marker → String
list_snapshot_of snap absent = ""
list_snapshot_of snap unreadable = ""
list_snapshot_of snap (marked p) = if str_eq p.snapshot snap then p.list_snapshot else ""

module _ (sys : System) where
  unfoldable pub interrupted : PendingApply → Bool
  interrupted p = elim p.state [
    | applying ↦ ltb 0 p.pid && sys.process_gone p.pid
    | pending ↦ false
    | reverting ↦ false
  ]

  -- seconds until the confirm timer rolls the change back
  unfoldable pub left : PendingApply → ℕ
  left p = if ltb sys.clock p.deadline then p.deadline - sys.clock else 0

  blocks_state : State → PendingApply → Refusal
  blocks_state applying p = if interrupted p then interrupted_apply else running_apply
  blocks_state reverting p = reverting_change
  blocks_state pending p = waiting (left p)

  -- pendingBlocks; no refusal is `nil`
  unfoldable pub pending_blocks : Marker → Option Refusal
  unfolding blocks_state
  pending_blocks absent = none
  pending_blocks unreadable = some unreadable_marker
  pending_blocks (marked p) = some (blocks_state p.state p)

  -- the file is created exclusively, then written
  write_claim : PendingApply → M Bool
  write_claim p = do
    effect (λ d. record d { marker = unreadable })
    n ← now
    if sys.marker_fails n
        then (do effect (λ d. record d { marker = absent }); pure false)
        else (do effect (λ d. record d { marker = marked p }); pure true)

  claim_on : PendingApply → Marker → M Bool
  claim_on p absent = write_claim p
  claim_on p unreadable = pure false
  claim_on p (marked _) = pure false

  -- claimPending: true if the marker is ours
  unfoldable pub claim_pending : PendingApply → M Bool
  unfolding claim_on write_claim
  claim_pending p = do m ← read_pending; claim_on p m

  -- setPending: atomic and durable
  unfoldable pub set_pending : PendingApply → M Bool
  set_pending p = do
    n ← now
    if sys.marker_fails n
        then pure false
        else (do effect (λ d. record d { marker = marked p }); pure true)

  -- armConfirm: the timer itself is another process
  unfoldable pub arm_confirm : String → ℕ → String → String → M Bool
  arm_confirm snap secs via token = do
    m ← read_pending
    set_pending (record {
      snapshot = snap;
      list_snapshot = list_snapshot_of snap m;
      state = pending;
      deadline = sys.clock + secs;
      via = via;
      pid = 0;
      confirm_hash = if str_eq token "" then "" else sys.token_hash token;
    })

  unfoldable pub start_marked : String → PendingApply → M (Option PendingApply)
  start_marked snap p =
      if (not (str_eq snap "") && not (str_eq p.snapshot snap)) || not (is_pending p.state)
      then pure none
      else do
        let p' = record p { state = reverting }
        done ← set_pending p'
        pure (if done then some p' else none)

  unfoldable pub start_on : String → Marker → M (Option PendingApply)
  start_on snap absent = pure none
  start_on snap unreadable = pure none
  start_on snap (marked p) = start_marked snap p

  -- startRevert
  unfoldable pub start_revert : String → M (Option PendingApply)
  unfolding start_on start_marked
  start_revert snap = do m ← read_pending; start_on snap m

abbrev pub names_snap : String → Marker → Bool
names_snap snap absent = false
names_snap snap unreadable = false
names_snap snap (marked p) = str_eq p.snapshot snap

module _ (sys : System) where
  -- os.Remove, whose error is ignored
  unfoldable pub remove_marker : M Unit
  remove_marker = do
    n ← now
    if sys.remove_fails n then pure tt else effect (λ d. record d { marker = absent })

  -- clearPending: `snap` is "" for any marker
  unfoldable pub clear_pending : String → M Unit
  unfolding remove_marker
  clear_pending snap = do
    m ← read_pending
    if str_eq snap "" || names_snap snap m then remove_marker else pure tt
