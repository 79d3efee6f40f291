-- ===== src/Apply/Plan.antt =====
-- The plan of a change: plan and Plan.Empty of mr/apply.go.
use text.Mathlib.Text.{◌==◌ as str_eq}
use mini_router.Prelude.{
  Bool, true, false, not, ◌&&◌, String, Option, none, some, List, [], ◌∷◌, ◌++◌, ltb, if◌then◌else◌,
}
use mini_router.Apply.Disk.{FilePath, Files, Disk, nft_path}
use mini_router.Apply.System.{System}
use mini_router.Apply.Archive.{named}

pub record Plan : Type 0 where
  pub changed : List (FilePath × String)
  pub remove : List FilePath
  pub services : List String
  pub firewall : Bool
  pub enable : List String
  pub disable : List String

abbrev pub holds : Files → FilePath → String → Bool
holds f p content = elim (f p) [ none ↦ false | some cur ↦ str_eq cur content ]

-- the rendered files that are not on the disk as they are rendered
unfoldable pub changed_files : Files → List (FilePath × String) → List (FilePath × String)
changed_files f [] = []
changed_files f ((p, content) ∷ l) =
    let rest = changed_files f l in if holds f p content then rest else (p, content) ∷ rest

unfoldable pub dedup : List String → List String → List String
dedup seen [] = []
dedup seen (x ∷ l) =
    let again = dedup seen l in
    let first = dedup (x ∷ seen) l in if named x seen then again else x ∷ first

module _ (sys : System) where
  -- the services of the changed files, but for those that mr owns and the config does not run
  unfoldable pub restarts : List String → List String → List (FilePath × String) → List String
  restarts want managed [] = []
  restarts want managed ((p, content) ∷ l) =
      let rest = restarts want managed l in
      elim (sys.service_for p) [
        | none ↦ rest
        | some s ↦ if named s managed && not (named s want) then rest else s ∷ rest
      ]

  insert_ranked : String → List String → List String
  insert_ranked x [] = x ∷ []
  insert_ranked x (y ∷ l) =
      let rest = insert_ranked x l in if ltb (sys.rank y) (sys.rank x) then y ∷ rest else x ∷ y ∷ l

  unfoldable pub by_rank : List String → List String
  unfolding insert_ranked
  by_rank [] = []
  by_rank (x ∷ l) = insert_ranked x (by_rank l)

  insert_sorted : String → List String → List String
  insert_sorted x [] = x ∷ []
  insert_sorted x (y ∷ l) =
      let rest = insert_sorted x l in if sys.before y x then y ∷ rest else x ∷ y ∷ l

  unfoldable pub sorted : List String → List String
  unfolding insert_sorted
  sorted [] = []
  sorted (x ∷ l) = insert_sorted x (sorted l)

  -- the services of the first list that are, or are not, linked and wanted
  to_enable : (String → Bool) → List String → List String
  to_enable have [] = []
  to_enable have (s ∷ l) = let rest = to_enable have l in if have s then rest else s ∷ rest

  to_disable : (String → Bool) → List String → List String → List String
  to_disable have want [] = []
  to_disable have want (s ∷ l) =
      let rest = to_disable have want l in if have s && not (named s want) then s ∷ rest else rest

  plan_rendered : sys.Config → Disk → List (FilePath × String) → Plan
  plan_rendered c d files =
      let want = dedup [] (sys.enabled c) in
      let managed = sys.managed d.files c in
      let changed = changed_files d.files files in
      record {
        changed = changed;
        remove = sys.wan_orphans d.files c ++ sys.module_orphans d.files c;
        services = by_rank (dedup [] (restarts want managed changed));
        firewall = not (holds d.files nft_path (sys.nft_text c));
        enable = sorted (to_enable d.links want);
        disable = sorted (to_disable d.links want managed);
      }

  -- plan; an error of Render is none
  unfoldable pub plan : sys.Config → Disk → Option Plan
  unfolding plan_rendered to_enable to_disable
  plan c d = elim (sys.render c) [ none ↦ none | some files ↦ some (plan_rendered c d files) ]

abbrev is_nil : {A : Type 0} → List A → Bool
is_nil [] = true
is_nil (x ∷ l) = false

-- true if nothing is to be changed: the method Empty
unfoldable pub is_empty_plan : Plan → Bool
is_empty_plan p =
    is_nil p.changed && is_nil p.remove && not p.firewall && is_nil p.enable && is_nil p.disable
