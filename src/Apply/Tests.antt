-- ===== src/Apply/Tests.antt =====
-- A small router, and the transaction on it.
use Prim.Native.String.{compare as compare_text}
use text.Mathlib.Text.{is_lt, ◌==◌ as str_eq}
use mini_router.Prelude.{ℕ, ◌≡◌, ◌⊎◌, refl, true, false, String, none, some, [], ◌∷◌, if◌then◌else◌}
use mini_router.Apply.Disk.{
  FilePath, path_eq, Files, Disk, Snapshot, absent, marked, PendingApply, pending, reverting,
  snap_of,
}
use mini_router.Apply.System.{System}
use mini_router.Apply.Action.{World, ret, ◌>>=◌, pure, gets, now, effect}
use mini_router.Apply.Archive.{
  listed, accepted_sources, saved, oldest, write_atomic, sort_names, other_names, drop_all,
  prune_history, snapshot_from,
}
use mini_router.Apply.Pending.{
  Refusal, claim_pending, pending_blocks, start_revert, set_pending, clear_pending, remove_marker,
}
use mini_router.Apply.Plan.{
  Plan, plan, changed_files, restarts, by_rank, sorted, dedup, is_empty_plan,
}
use mini_router.Apply.Restore.{stage_accepted, accept_staged}
use mini_router.Apply.Revision.{new_revision, set_result, with_result}
use mini_router.Apply.Command.{
  failed, rollback_command, snapshot_for, entries, present, rev_file, trim_suffix, with_suffix,
  last_of,
}
use mini_router.Apply.Command.Settles.{rollback_command-IsSettledBy, IsSettledBy}
use mini_router.Apply.Restore.{restore}
use mini_router.Apply.Disk.{accepted_secrets}
use mini_router.Apply.Confirm.{confirm, kept, being_reverted, nothing}
use mini_router.Apply.Confirm.Race.{reverted_first, confirmed_first}
use mini_router.Apply.Rollback.{rollback_at_boot, fw_load}
use mini_router.Apply.Rollback.Boot.{IsPlain, rollback_at_boot-put_back}
use mini_router.Apply.Run.{
  ApplyOpts, refused, apply_with, unless_refused, validated, with_plan, transact, sources,
  claim_and_go, claim_of, snapshot_paths, claimed, is_stale, install_and_write, run_install,
  write_and_activate, write_files, link_all, remove_files, remove_orphans, activate,
}
use mini_router.Apply.Run.Recovery.{boot_after_apply, rebooted}
use mini_router.Apply.Run.Refused.{apply_with-refused, apply_with-dry}

-- one service, one generated file, nothing that fails
abbrev dns_conf : FilePath
dns_conf = record { dir = "/etc/unbound"; base = "unbound.conf" }

abbrev box : System
box = record {
  Config = String;
  load = λ y s. y;
  valid = λ c. true;
  enabled = λ c. "unbound" ∷ [];
  managed = λ f c. "unbound" ∷ [];
  history_keep = λ c. 5;
  render = λ c. some ((dns_conf, c) ∷ []);
  service_for = λ p. some "unbound";
  rank = λ s. 1;
  module_orphans = λ f c. [];
  wan_orphans = λ f c. [];
  nft_text = λ c. "table inet mr {}";
  net_commit = λ c f. f;
  io_fails = λ n p. false;
  snapshot_fails = λ n. false;
  marker_fails = λ n. false;
  remove_fails = λ n. false;
  stop_fails = λ n s. false;
  nft_check_fails = λ n. false;
  nft_load_fails = λ n. false;
  lan6_fails = λ n. false;
  restart_fails = λ n l. false;
  verify_fails = λ n l. false;
  process_gone = λ p. true;
  own_pid = 7;
  clock = 1000;
  rev_hash = λ s. s;
  token_hash = λ s. s;
  yaml_map = λ s. none;
  yaml_text = λ l. none;
  before = λ a b. is_lt (compare_text a b);
}

abbrev box_files : Files
box_files p = if path_eq dns_conf p then some "old" else none

abbrev box_disk : Disk
box_disk = record {
  files = box_files;
  snaps = [];
  revisions = [];
  marker = absent;
  list_marker = "";
  links = λ s. str_eq s "unbound";
}

-- the power goes at the given change of the disk
abbrev cut_world : ℕ → World
cut_world n = record { disk = box_disk; moment = 0; cut_at = some n }

abbrev no_opts : ApplyOpts
no_opts = record { via = "cli"; base_rev = ""; confirm_token = ""; list_snapshot = "" }

abbrev snap_name : String
snap_name = "20260101-000000.tar.gz"

abbrev new_plan : Plan
new_plan = record {
  changed = (dns_conf, "new") ∷ [];
  remove = [];
  services = "unbound" ∷ [];
  firewall = true;
  enable = [];
  disable = [];
}

new_plan-plan : plan box "new" box_disk ≡ some new_plan
unfolding plan changed_files dedup restarts by_rank sorted
new_plan-plan = refl

abbrev box_claim : PendingApply
box_claim = claim_of box snap_name no_opts

abbrev left_by : ℕ → World
left_by n = (apply_with box snap_name "new" false 60 none no_opts (cut_world n)).1

-- cut when unbound.conf has just been written
half_done : (left_by 7).disk.marker ≡ marked box_claim
unfolding apply_with unless_refused validated with_plan transact claim_and_go claim_of claimed
    is_stale install_and_write run_install write_and_activate write_files claim_pending
    pending_blocks plan changed_files dedup restarts by_rank sorted is_empty_plan snapshot_from
    prune_history saved sort_names other_names drop_all oldest sources accepted_sources
    snapshot_paths new_revision stage_accepted write_atomic link_all remove_files remove_orphans
    activate fw_load ◌>>=◌ pure gets now effect
half_done = refl

half_written : (left_by 7).disk.files dns_conf ≡ some "new"
unfolding apply_with unless_refused validated with_plan transact claim_and_go claim_of claimed
    is_stale install_and_write run_install write_and_activate write_files claim_pending
    pending_blocks plan changed_files dedup restarts by_rank sorted is_empty_plan snapshot_from
    prune_history saved sort_names other_names drop_all oldest sources accepted_sources
    snapshot_paths new_revision stage_accepted write_atomic link_all remove_files remove_orphans
    activate fw_load ◌>>=◌ pure gets now effect
half_written = refl

abbrev dns_plain : IsPlain dns_conf
dns_plain = record { not_secrets = refl; not_staged_config = refl; not_staged_secrets = refl }

dns_covered : listed dns_conf (snapshot_paths box new_plan) ≡ true
unfolding snapshot_paths
dns_covered = refl

boot_after_apply_example :
    let w' = rebooted (left_by 7) in
    ((rollback_at_boot box w').0 ≡ ret true)
    × ((rollback_at_boot box w').1.disk.marker ≡ absent)
    × ((rollback_at_boot box w').1.disk.files dns_conf
        ≡ box_files (sources box none box_files dns_conf))
boot_after_apply_example =
    boot_after_apply box box snap_name (cut_world 7) "new" 60 none no_opts new_plan box_claim
      dns_conf (λ n x. refl) (λ n. refl) (λ n. refl) refl new_plan-plan refl half_done dns_plain
      dns_covered

-- the same disk with a change that waits for its confirmation
abbrev waiting_claim : PendingApply
waiting_claim = record box_claim { state = pending; deadline = 1060 }

abbrev waiting : World
waiting = record {
  disk = record box_disk { marker = marked waiting_claim };
  moment = 0;
  cut_at = none;
}

abbrev reverting_claim : PendingApply
reverting_claim = record waiting_claim { state = reverting }

abbrev taken : World
taken = record {
  disk = record box_disk { marker = marked reverting_claim };
  moment = 1;
  cut_at = none;
}

revert_starts : start_revert box snap_name waiting ≡ (ret (some reverting_claim), taken)
unfolding start_revert set_pending ◌>>=◌ pure gets now effect claim_of
revert_starts = refl

reverted_first_example :
    (confirm box taken ≡ (ret being_reverted, taken))
    × (start_revert box "" taken ≡ (ret none, taken))
reverted_first_example = reverted_first box waiting taken snap_name "" reverting_claim revert_starts

apply_with-refused_example :
    (r : Refusal) × (apply_with box snap_name "new" false 60 none no_opts taken
      ≡ (ret (refused r), taken))
apply_with-refused_example = apply_with-refused box snap_name "new" 60 none no_opts taken (λ e. cc)

apply_with-dry_example : (apply_with box snap_name "new" true 60 none no_opts taken).1 ≡ taken
apply_with-dry_example = apply_with-dry box snap_name "new" 60 none no_opts taken

abbrev accepted : World
accepted = (confirm box waiting).1

keeps : confirm box waiting ≡ (ret kept, accepted)
unfolding confirm clear_pending remove_marker accept_staged set_result with_result claim_of ◌>>=◌
    pure gets now effect
keeps = refl

confirmed_first_example :
    ((start_revert box snap_name accepted ≡ (ret none, accepted))
      × (confirm box accepted ≡ (ret nothing, accepted)))
    ⊎ ((accepted.disk.marker ≡ marked waiting_claim) × ((n : ℕ) × (box.remove_fails n ≡ true)))
confirmed_first_example = confirmed_first box waiting accepted snap_name keeps

-- a machine that cannot remove the marker
abbrev stuck : System
stuck = record box { remove_fails = λ n. true }

still_marked : (confirm stuck waiting).1.disk.marker ≡ marked waiting_claim
unfolding confirm clear_pending remove_marker accept_staged set_result with_result claim_of ◌>>=◌
    pure gets now effect
still_marked = refl

-- a disk that a change was cut on: unbound.conf is new, the snapshot has the old one
abbrev old_snap : Snapshot
old_snap = record { entries = (dns_conf, "old") ∷ []; covered = dns_conf ∷ [] }

abbrev broken : World
broken = record {
  disk = record box_disk {
    files = λ p. if path_eq dns_conf p then some "new" else none;
    snaps = (snap_name, old_snap) ∷ [];
    marker = marked waiting_claim;
  };
  moment = 0;
  cut_at = none;
}

listless : waiting_claim.list_snapshot ≡ ""
unfolding claim_of
listless = refl

snap_there : snap_of waiting_claim.snapshot broken.disk.snaps ≡ some old_snap
unfolding claim_of
snap_there = refl

rollback_at_boot-put_back_example :
    ((rollback_at_boot box broken).0 ≡ ret true)
    × ((rollback_at_boot box broken).1.disk.marker ≡ absent)
    × ((rollback_at_boot box broken).1.disk.files dns_conf ≡ some "old")
rollback_at_boot-put_back_example =
    rollback_at_boot-put_back box (λ n x. refl) (λ n. refl) dns_conf dns_plain old_snap broken
      waiting_claim (some "old") refl refl listless snap_there (λ e. refl, tt) refl refl

rollback_command-IsSettledBy_example :
    IsSettledBy box waiting_claim
      (rollback_command box none broken).0
      (rollback_command box none broken).1.disk
rollback_command-IsSettledBy_example =
    rollback_command-IsSettledBy box none broken waiting_claim refl

-- an accepted change, its snapshot and revision, and the accepted secrets.yaml beside them
abbrev settled : World
settled = record {
  disk = record box_disk {
    files = λ p. if path_eq accepted_secrets p then some "{}" else none;
    snaps = (snap_name, old_snap) ∷ [];
    revisions = record { rev = 1; via = "cli"; result = "applied"; snapshot = snap_name } ∷ [];
  };
  moment = 0;
  cut_at = none;
}

-- without an argument the command takes the last name of the directory, which is no snapshot
latest_is_no_snapshot : rollback_command box none settled ≡ (ret failed, settled)
unfolding rollback_command snapshot_for entries present rev_file trim_suffix with_suffix last_of
    sort_names restore ◌>>=◌ pure gets now effect
latest_is_no_snapshot = refl
