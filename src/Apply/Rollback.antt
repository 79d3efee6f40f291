-- ===== src/Apply/Rollback.antt =====
-- Undoing a change: rollback, rollbackAtBoot, and what they do to the runlevel and the firewall
-- (reconcileRunlevel, linkRunlevel, fwLoad).
pub mod Stable
pub mod Settling
pub mod Boot
use text.Mathlib.Text.{◌==◌ as str_eq}
use mini_router.Prelude.{
  ℕ, Bool, true, false, not, ◌&&◌, ◌||◌, String, Option, none, some, List, [], ◌∷◌, if◌then◌else◌,
}
use mini_router.Apply.Disk.{
  FilePath, Files, Disk, Marker, absent, unreadable, marked, PendingApply, config_path,
  secrets_path, nft_path, gen,
}
use mini_router.Apply.System.{System}
use mini_router.Apply.Action.{M, ◌>>=◌, ◌>>◌, pure, gets, now, effect}
use mini_router.Apply.Archive.{put_file, remove_file, write_atomic, exists}
use mini_router.Apply.Pending.{read_pending, clear_pending, list_snapshot_of}
use mini_router.Apply.Archive.{named}
use mini_router.Apply.Restore.{restore, keep_rejected, undo_lists, drop_staged}
use mini_router.Apply.Revision.{set_result}

abbrev pub init_script : String → FilePath
init_script s = record { dir = "/etc/init.d"; base = s }

abbrev pub set_link : String → Bool → Disk → Disk
set_link s b d = record d { links = λ x. if str_eq x s then b else d.links x }

-- links to init scripts that are not there
unfoldable pub drop_dangling : M Unit
drop_dangling = effect (λ d. record d { links = λ x. d.links x && exists d.files (init_script x) })

-- how an apply, or its undoing, ended
pub data Undone : Type 0 where
  rolled_back rollback_failed : Undone

module _ (sys : System) where
  unlink_unwanted : List String → List String → M Unit
  unlink_unwanted want [] = pure tt
  unlink_unwanted want (s ∷ l) =
      if named s want
      then unlink_unwanted want l
      else (do effect (set_link s false); unlink_unwanted want l)

  link_wanted : List String → M Unit
  link_wanted [] = pure tt
  link_wanted (s ∷ l) = do
    there ← gets (λ d. exists d.files (init_script s))
    if there then (do effect (set_link s true); link_wanted l) else link_wanted l

  -- linkRunlevel, before OpenRC runs: dangling links go before the wanted ones come
  unfoldable pub link_runlevel : sys.Config → M Unit
  unfolding unlink_unwanted link_wanted
  link_runlevel c = do
    managed ← gets (λ d. sys.managed d.files c)
    unlink_unwanted (sys.enabled c) managed
    drop_dangling
    link_wanted (sys.enabled c)

  -- reconcileRunlevel: the same with OpenRC running, dangling links last
  unfoldable pub reconcile_runlevel : sys.Config → M Unit
  unfolding unlink_unwanted link_wanted
  reconcile_runlevel c = do
    managed ← gets (λ d. sys.managed d.files c)
    unlink_unwanted (sys.enabled c) managed
    link_wanted (sys.enabled c)
    drop_dangling

  -- fwLoad: true if the rules are loaded; the file is renamed into place after the load
  unfoldable pub fw_load : sys.Config → M Bool
  fw_load c = do
    written ← write_atomic sys (gen "nftables.nft.new") (sys.nft_text c)
    n ← now
    if not written
        then pure false
        else if sys.nft_check_fails n || sys.nft_load_fails n
        then (do remove_file (gen "nftables.nft.new"); pure false)
        else do
          effect (λ d.
              put_file (gen "nftables.nft.new") none (put_file nft_path (some (sys.nft_text c)) d))
          pure (not (sys.lan6_fails n))

  pub settle_runtime : Option sys.Config → M Unit
  settle_runtime none = pure tt
  settle_runtime (some c) = do reconcile_runlevel c; fw_load c; pure tt

  finish_rollback : String → String → Bool → M Undone
  finish_rollback snap lists false = pure rollback_failed
  finish_rollback snap lists true = do
    drop_staged
    undo_lists sys lists
    c ← gets (λ d. sys.load (d.files config_path) (d.files secrets_path))
    settle_runtime c
    clear_pending sys snap
    set_result snap "rolled back"
    pure rolled_back

  -- rollback
  unfoldable pub rollback : String → M Undone
  unfolding settle_runtime finish_rollback
  rollback snap = do
    m ← read_pending
    keep_rejected sys snap
    done ← restore sys snap true
    finish_rollback snap (list_snapshot_of snap m) done

  -- the marker is set aside: ConfirmFile is renamed
  set_aside : M Unit
  set_aside = effect (λ d. record d { marker = absent })

  pub link_config : Option sys.Config → M Unit
  link_config none = pure tt
  link_config (some c) = link_runlevel c

  finish_boot : PendingApply → Bool → M Bool
  finish_boot p false = do set_aside; pure false
  finish_boot p true = do
    drop_staged
    undo_lists sys p.list_snapshot
    c ← gets (λ d. sys.load (d.files config_path) (d.files secrets_path))
    link_config c
    clear_pending sys ""
    set_result p.snapshot "rolled back at boot"
    pure true

  boot_marker : Marker → String → M Bool
  boot_marker absent lists = do undo_lists sys lists; pure true
  boot_marker unreadable lists = do set_aside; pure false
  boot_marker (marked p) lists = do
    keep_rejected sys p.snapshot
    done ← restore sys p.snapshot false
    finish_boot p done

  -- rollbackAtBoot: true if it returned no error
  unfoldable pub rollback_at_boot : M Bool
  unfolding set_aside link_config finish_boot boot_marker
  rollback_at_boot = do m ← read_pending; lists ← gets (λ d. d.list_marker); boot_marker m lists
