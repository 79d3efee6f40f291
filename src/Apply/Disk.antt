-- ===== src/Apply/Disk.antt =====
-- What survives a power cut, as mr/apply.go, mr/history.go and mr/mod_sys_backup.go see it: the
-- files, the history's snapshots and revisions, the pending marker, the restore's list marker and
-- the links of the default runlevel.
use text.Mathlib.Text.{◌==◌ as str_eq}
use mini_router.Prelude.{
  ℕ, ◌≡◌, ◌↔◌, Bool, true, ◌&&◌, String, Option, none, some, List, [], ◌∷◌, arith, if◌then◌else◌,
  eq_iff,
}

-- A path is its filepath.Dir and its filepath.Base.
pub record FilePath : Type 0 where
  pub dir : String
  pub base : String

abbrev pub path_eq : FilePath → FilePath → Bool
path_eq p q = str_eq p.dir q.dir && str_eq p.base q.base

pub path_eq_iff : (p q : FilePath) → (path_eq p q ≡ true) ↔ (p ≡ q)
path_eq_iff p q = (
  λ h. ground (arith, eq_iff p.dir q.dir, eq_iff p.base q.base),
  λ e. ground (arith, eq_iff p.dir q.dir, eq_iff p.base q.base),
)

abbrev pub Files : Type 0
Files = FilePath → Option String

abbrev pub put : Files → FilePath → Option String → Files
put f p v q = if path_eq p q then v else f q

-- The archive of one snapshot: the files that were there, and .mr-paths.
pub record Snapshot : Type 0 where
  pub entries : List (FilePath × String)
  pub covered : List FilePath

pub data State : Type 0 where
  applying pending reverting : State

pub record PendingApply : Type 0 where
  pub snapshot : String
  pub list_snapshot : String
  pub state : State
  pub deadline : ℕ
  pub via : String
  pub pid : ℕ
  pub confirm_hash : String

-- The marker's file: missing, not readable as a marker, or a marker.
pub data Marker : Type 0 where
  absent unreadable : Marker
  marked : PendingApply → Marker

pub record Revision : Type 0 where
  pub rev : ℕ
  pub via : String
  pub result : String
  pub snapshot : String

pub record Disk : Type 0 where
  pub files : Files
  pub snaps : List (String × Snapshot)
  pub revisions : List Revision
  pub marker : Marker
  pub list_marker : String
  pub links : String → Bool

abbrev pub snap_of : String → List (String × Snapshot) → Option Snapshot
snap_of name [] = none
snap_of name ((n, s) ∷ l) = if str_eq n name then some s else snap_of name l

abbrev pub drop_snap : String → List (String × Snapshot) → List (String × Snapshot)
drop_snap name [] = []
drop_snap name ((n, s) ∷ l) =
    let rest = drop_snap name l in if str_eq n name then rest else (n, s) ∷ rest

abbrev pub drop_revision : String → List Revision → List Revision
drop_revision name [] = []
drop_revision name (r ∷ l) =
    let rest = drop_revision name l in if str_eq r.snapshot name then rest else r ∷ rest

abbrev pub etc : String → FilePath
etc base = record { dir = "/etc/mini-router"; base = base }

abbrev pub config_path : FilePath
config_path = etc "router.yaml"

abbrev pub secrets_path : FilePath
secrets_path = etc "secrets.yaml"

abbrev pub history : String → FilePath
history base = record { dir = "/etc/mini-router/history"; base = base }

abbrev pub accepted_config : FilePath
accepted_config = history "accepted-router.yaml"

abbrev pub accepted_secrets : FilePath
accepted_secrets = history "accepted-secrets.yaml"

abbrev pub staged_config : FilePath
staged_config = history "accepted-router.yaml.staged"

abbrev pub staged_secrets : FilePath
staged_secrets = history "accepted-secrets.yaml.staged"

abbrev pub gen : String → FilePath
gen base = record { dir = "/etc/mini-router/gen"; base = base }

abbrev pub applied_yaml : FilePath
applied_yaml = gen "applied.yaml"

abbrev pub nft_path : FilePath
nft_path = gen "nftables.nft"
