-- ===== src/Apply/Archive.antt =====
-- Snapshots: writeSnapshotFrom of mr/mod_sys_backup.go; acceptedSources, snapshotFrom, pruneHistory
-- and writeAtomic of mr/apply.go.
pub mod Prune
pub mod Saved
use text.Mathlib.Text.{◌==◌ as str_eq, starts_with}
use mini_router.Prelude.{
  ℕ, ◌-◌, Bool, true, false, not, ◌&&◌, ◌||◌, String, Option, none, some, List, [], ◌∷◌, ◌++◌,
  if◌then◌else◌, ltb, length, zero, suc,
}
use mini_router.Apply.Disk.{
  FilePath, path_eq, Files, put, Snapshot, Disk, snap_of, drop_snap, config_path, secrets_path,
  accepted_config, accepted_secrets, staged_config, staged_secrets, applied_yaml, etc,
  drop_revision,
}
use mini_router.Apply.System.{System}
use mini_router.Apply.Action.{M, ◌>>=◌, ◌>>◌, pure, gets, now, effect}

abbrev pub exists : Files → FilePath → Bool
exists f p = elim (f p) [ none ↦ false | some _ ↦ true ]

abbrev pub put_file : FilePath → Option String → Disk → Disk
put_file p v d = record d { files = put d.files p v }

-- os.Remove
abbrev pub remove_file : FilePath → M Unit
remove_file p = effect (put_file p none)

-- acceptedSources: where the accepted version of a live file is, or the file itself
unfoldable pub accepted_sources : Files → FilePath → FilePath
accepted_sources f p =
    if path_eq config_path p
    then (if exists f accepted_config
        then accepted_config
        else if exists f applied_yaml
        then applied_yaml
        else p)
    else if path_eq secrets_path p
    then (if exists f accepted_secrets then accepted_secrets else p)
    else p

-- what writeSnapshotFrom saves of the paths; a file that is not there has no entry
unfoldable pub saved : Files → (FilePath → FilePath) → List FilePath → List (FilePath × String)
saved f src [] = []
saved f src (p ∷ paths) =
    let rest = saved f src paths in elim (f (src p)) [ none ↦ rest | some s ↦ (p, s) ∷ rest ]

abbrev pub listed : FilePath → List FilePath → Bool
listed p [] = false
listed p (q ∷ l) = path_eq q p || listed p l

abbrev pub entry_of : FilePath → List (FilePath × String) → Option String
entry_of p [] = none
entry_of p ((q, s) ∷ l) = if path_eq q p then some s else entry_of p l

-- the removals of pruneHistory: from the oldest on, as many as are too many
unfoldable pub oldest : ℕ → List String → List String
oldest zero names = []
oldest (suc n) [] = []
oldest (suc n) (x ∷ names) = x ∷ oldest n names

abbrev pub named : String → List String → Bool
named s [] = false
named s (x ∷ l) = str_eq x s || named s l

module _ (sys : System) where
  -- writeAtomic, true if there was no error
  unfoldable pub write_atomic : FilePath → String → M Bool
  write_atomic p s = do
    n ← now
    if sys.io_fails n p then pure false else (do effect (put_file p (some s)); pure true)

  insert_name : String → List String → List String
  insert_name x [] = x ∷ []
  insert_name x (y ∷ l) =
      let rest = insert_name x l in if sys.before y x then y ∷ rest else x ∷ y ∷ l

  unfoldable pub sort_names : List String → List String
  unfolding insert_name
  sort_names [] = []
  sort_names (x ∷ l) = insert_name x (sort_names l)

  unfoldable pub other_names : String → List (String × Snapshot) → List String
  other_names keep_name [] = []
  other_names keep_name ((n, s) ∷ l) =
      let rest = other_names keep_name l in if str_eq n keep_name then rest else n ∷ rest

  unfoldable pub drop_all : List String → M Unit
  drop_all [] = pure tt
  drop_all (n ∷ names) = do
    effect (λ d. record d { snaps = drop_snap n d.snaps; revisions = drop_revision n d.revisions })
    drop_all names

  -- pruneHistory keeps the newest, always counting and keeping the one just written
  unfoldable pub prune_history : ℕ → String → M Unit
  prune_history keep keep_name = do
    names ← gets (λ d. sort_names (other_names keep_name d.snaps))
    drop_all (oldest (length names - (keep - 1)) names)

  -- snapshotFrom: true if the snapshot is on disk
  unfoldable pub snapshot_from : String → List FilePath → ℕ → (FilePath → FilePath) → M Bool
  snapshot_from name paths keep src = do
    n ← now
    if sys.snapshot_fails n then pure false else do
      effect (λ d. record d {
        snaps =
            (name, record { entries = saved d.files src paths; covered = paths })
            ∷ drop_snap name d.snaps;
      })
      prune_history keep name
      pure true
