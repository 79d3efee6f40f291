-- ===== src/Apply/System.antt =====
-- What the transaction uses of the machine and of the other parts of mr: commands that may fail,
-- the decoded config and what follows from it, YAML and hashes. A failure is decided anew at each
-- moment, by the power that is left.
use mini_router.Prelude.{ℕ, Bool, String, Option, List}
use mini_router.Apply.Disk.{FilePath, Files}

pub record System : Type 1 where
  -- a config with its defaults; `load` is loadConfig on router.yaml and secrets.yaml
  pub Config : Type 0
  pub load : Option String → Option String → Option Config
  pub valid : Config → Bool
  -- enabledServices, managedServices (which also reads the init scripts), historyKeep
  pub enabled : Config → List String
  pub managed : Files → Config → List String
  pub history_keep : Config → ℕ
  -- Render and appliedFiles; an error is none
  pub render : Config → Option (List (FilePath × String))
  -- serviceFor ("" is none) and rank, from the modules' tables
  pub service_for : FilePath → Option String
  pub rank : String → ℕ
  -- moduleOrphanPaths and orphanWANPaths
  pub module_orphans : Files → Config → List FilePath
  pub wan_orphans : Files → Config → List FilePath
  -- renderNft, and what netCommit does to the files of the network's own state
  pub nft_text : Config → String
  pub net_commit : Config → Files → Files
  -- an I/O error on a path; a failing command
  pub io_fails : ℕ → FilePath → Bool
  pub snapshot_fails : ℕ → Bool
  pub marker_fails : ℕ → Bool
  -- os.Remove of the marker
  pub remove_fails : ℕ → Bool
  pub stop_fails : ℕ → String → Bool
  pub nft_check_fails : ℕ → Bool
  pub nft_load_fails : ℕ → Bool
  pub lan6_fails : ℕ → Bool
  pub restart_fails : ℕ → List String → Bool
  pub verify_fails : ℕ → List String → Bool
  -- syscall.Kill(pid, 0) == ESRCH; os.Getpid(); time.Now().Unix()
  pub process_gone : ℕ → Bool
  pub own_pid : ℕ
  pub clock : ℕ
  -- the hex digests of configRev and of a confirm token
  pub rev_hash : String → String
  pub token_hash : String → String
  -- yaml.Unmarshal and yaml.Marshal on secrets.yaml
  pub yaml_map : String → Option (List (String × String))
  pub yaml_text : List (String × String) → Option String
  -- the order of sort.Strings
  pub before : String → String → Bool
