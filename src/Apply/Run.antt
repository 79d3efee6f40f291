-- ===== src/Apply/Run.antt =====
-- applyWith of mr/apply.go, the install step of ApplyCandidate and the cleanup of orphans.
pub mod Stable
pub mod Refused
pub mod Guarded
pub mod Crash
pub mod Recovery
use text.Mathlib.Text.{◌==◌ as str_eq}
use mini_router.Prelude.{
  ℕ, zero, suc, Bool, true, false, not, ◌&&◌, ◌||◌, String, Option, none, some, List, [], ◌∷◌, ◌++◌,
  map, if◌then◌else◌, ltb,
}
use mini_router.Apply.Disk.{
  FilePath, Files, Disk, Marker, absent, unreadable, marked, PendingApply, State, applying, pending,
  reverting, config_path, secrets_path, accepted_config, accepted_secrets, staged_config,
  staged_secrets, nft_path, drop_snap,
}
use mini_router.Apply.System.{System}
use mini_router.Apply.Action.{M, ◌>>=◌, ◌>>◌, pure, gets, now, effect}
use mini_router.Apply.Archive.{
  put_file, remove_file, write_atomic, exists, accepted_sources, snapshot_from,
}
use mini_router.Apply.Pending.{
  Refusal, read_pending, pending_blocks, claim_pending, arm_confirm, clear_pending,
}
use mini_router.Apply.Plan.{Plan, plan, is_empty_plan, dedup}
use mini_router.Apply.Archive.{named}
use mini_router.Apply.Restore.{stage_accepted, accept_staged, removed_wan_service, stop_and_disable}
use mini_router.Apply.Revision.{new_revision, set_result}
use mini_router.Apply.Rollback.{Undone, rollback, fw_load, set_link}

-- applyOpts, as far as the disk sees it
pub record ApplyOpts : Type 0 where
  pub via : String
  pub base_rev : String
  pub confirm_token : String
  pub list_snapshot : String

-- The candidate that `install` puts in place: router.yaml and secrets.yaml.
pub record Candidate : Type 0 where
  pub yaml : String
  pub secrets : String

pub data Applied : Type 0 where
  refused : Refusal → Applied
  invalid plan_error nothing_to_do planned snapshot_error claim_error stale : Applied
  undone : Undone → Applied
  applied waiting_confirm : Applied

abbrev pub no_candidate : Option Candidate → Bool
no_candidate none = true
no_candidate (some k) = false

module _ (sys : System) where
  -- the closure `install` of ApplyCandidate
  unfoldable pub install : Candidate → M Bool
  install k = do
    done ← write_atomic sys config_path k.yaml
    if done then write_atomic sys secrets_path k.secrets else pure false

  unfoldable pub run_install : Option Candidate → M Bool
  run_install none = pure true
  run_install (some k) = install k

  unfoldable pub write_files : List (FilePath × String) → M Bool
  write_files [] = pure true
  write_files ((p, content) ∷ l) = do
    done ← write_atomic sys p content
    if done then write_files l else pure false

  unfoldable pub link_all : Bool → List String → M Unit
  link_all b [] = pure tt
  link_all b (s ∷ l) = do effect (set_link s b); link_all b l

  unfoldable pub remove_files : List FilePath → M Unit
  remove_files [] = pure tt
  remove_files (p ∷ l) = do remove_file p; remove_files l

  unfoldable pub remove_wrapper : FilePath → M Unit
  remove_wrapper p = do
    remove_file p
    if str_eq p.dir "/etc/init.d" then effect (set_link p.base false) else pure tt

  unfoldable pub remove_orphan : FilePath → Option String → List String → M (List String)
  remove_orphan p none stopped = do remove_wrapper p; pure stopped
  remove_orphan p (some s) stopped =
      if named s stopped then (do remove_wrapper p; pure stopped) else do
        done ← stop_and_disable sys s
        if done then (do remove_wrapper p; pure (s ∷ stopped)) else pure stopped

  -- cleanupOrphanWANFiles
  unfoldable pub remove_orphans : List FilePath → List String → M Unit
  remove_orphans [] stopped = pure tt
  remove_orphans (p ∷ l) stopped = do
    stopped' ← remove_orphan p (removed_wan_service p) stopped
    remove_orphans l stopped'

  unfoldable pub accept : String → sys.Config → ℕ → ApplyOpts → M Applied
  accept snap c zero o = do
    clear_pending sys snap
    accept_staged
    set_result snap "applied"
    effect (λ d. record d { files = sys.net_commit c d.files })
    pure applied
  accept snap c (suc s) o = do
    arm_confirm sys snap (suc s) o.via o.confirm_token
    set_result snap "pending"
    pure waiting_confirm

  unfoldable pub undo : String → M Applied
  undo snap = do u ← rollback sys snap; pure (undone u)

  -- from the restart of the services on
  unfoldable pub activate : String → sys.Config → Plan → ℕ → ApplyOpts → M Applied
  activate snap c p secs o = do
    n ← now
    if sys.restart_fails n (dedup [] (p.services ++ p.enable)) then undo snap else do
      loaded ← fw_load sys c
      if not loaded then undo snap else do
        k ← now
        if sys.verify_fails k (dedup [] (p.services ++ p.enable))
            then undo snap
            else accept snap c secs o

  -- from the first new file on; `changed` are the files of the plan
  unfoldable pub write_and_activate : String → sys.Config → Plan → ℕ → ApplyOpts → M Applied
  write_and_activate snap c p secs o = do
    stage_accepted sys
    done ← write_files p.changed
    if not done then undo snap else do
      link_all true p.enable
      link_all false p.disable
      orphans ← gets (λ d. sys.module_orphans d.files c)
      remove_files orphans
      wan_orphans ← gets (λ d. sys.wan_orphans d.files c)
      remove_orphans wan_orphans []
      activate snap c p secs o

  -- another client changed router.yaml: nothing is written yet
  unfoldable pub withdraw : String → M Applied
  withdraw snap = do
    clear_pending sys snap
    effect (λ d. record d { snaps = drop_snap snap d.snaps })
    pure stale

  unfoldable pub install_and_write :
      String → sys.Config → Plan → ℕ → Option Candidate → ApplyOpts → M Applied
  install_and_write snap c p secs k o = do
    new_revision snap o.via
    done ← run_install k
    if done then write_and_activate snap c p secs o else undo snap

  unfoldable pub is_stale : ApplyOpts → Files → Bool
  is_stale o f =
      let rev : String = elim (f config_path) [ none ↦ "" | some s ↦ sys.rev_hash s ] in
      not (str_eq o.base_rev "") && not (str_eq rev o.base_rev)

  -- the marker is ours
  unfoldable pub claimed : String → sys.Config → Plan → ℕ → Option Candidate → ApplyOpts → M Applied
  claimed snap c p secs k o = do
    if str_eq o.list_snapshot "" then pure tt else effect (λ d. record d { list_marker = "" })
    late ← gets (λ d. is_stale o d.files)
    if late then withdraw snap else install_and_write snap c p secs k o

  unfoldable pub snapshot_paths : Plan → List FilePath
  snapshot_paths p =
      map (λ f. f.0) p.changed ++ (config_path ∷ secrets_path ∷ nft_path ∷ []) ++ p.remove

  unfoldable pub claim_of : String → ApplyOpts → PendingApply
  claim_of snap o = record {
    snapshot = snap;
    list_snapshot = o.list_snapshot;
    state = applying;
    deadline = 0;
    via = o.via;
    pid = sys.own_pid;
    confirm_hash = "";
  }

  -- the snapshot is on disk
  unfoldable pub claim_and_go :
      String → sys.Config → Plan → ℕ → Option Candidate → ApplyOpts → M Applied
  claim_and_go snap c p secs k o = do
    mine ← claim_pending sys (claim_of snap o)
    if mine
        then claimed snap c p secs k o
        else (do effect (λ d. record d { snaps = drop_snap snap d.snaps }); pure claim_error)

  unfoldable pub sources : Option Candidate → Files → FilePath → FilePath
  sources none f = accepted_sources f
  sources (some k) f = λ p. p

  -- from the snapshot on: `snap` is its name
  unfoldable pub transact :
      String → sys.Config → Plan → ℕ → Option Candidate → ApplyOpts → M Applied
  transact snap c p secs k o = do
    src ← gets (λ d. sources k d.files)
    saved ← snapshot_from sys snap (snapshot_paths p) (sys.history_keep c) src
    if saved then claim_and_go snap c p secs k o else pure snapshot_error

  unfoldable pub with_plan :
      String → sys.Config → Bool → ℕ → Option Candidate → ApplyOpts → Option Plan → M Applied
  with_plan snap c dry secs k o none = pure plan_error
  with_plan snap c dry secs k o (some p) =
      if is_empty_plan p && no_candidate k
      then pure nothing_to_do
      else if dry
      then pure planned
      else transact snap c p secs k o

  unfoldable pub validated :
      String → sys.Config → Bool → ℕ → Option Candidate → ApplyOpts → M Applied
  validated snap c dry secs k o =
      if not (sys.valid c)
      then pure invalid
      else do p ← gets (λ d. plan sys c d); with_plan snap c dry secs k o p

  unfoldable pub unless_refused :
      String → sys.Config → Bool → ℕ → Option Candidate → ApplyOpts → Option Refusal → M Applied
  unless_refused snap c dry secs k o none = validated snap c dry secs k o
  unless_refused snap c dry secs k o (some r) = pure (refused r)

  -- applyWith
  unfoldable pub apply_with :
      String → sys.Config → Bool → ℕ → Option Candidate → ApplyOpts → M Applied
  apply_with snap c dry secs k o = do
    m ← read_pending
    unless_refused snap c dry secs k o (if dry then none else pending_blocks sys m)
