-- ===== src/Apply/Archive/Prune.antt =====
-- Pruning the history never drops the snapshot that was just written.
use text.Mathlib.Text.{◌==◌ as str_eq}
use text.Mathlib.TextPositions.{eq_refl}
use mini_router.Prelude.{
  ℕ, zero, suc, ◌-◌, ◌≡◌, refl, true, false, String, some, List, [], ◌∷◌, arith, if◌then◌else◌,
  length, eq_iff,
}
use mini_router.Apply.Disk.{
  FilePath, Files, Snapshot, Disk, snap_of, drop_snap, drop_revision, absent,
}
use mini_router.Apply.System.{System}
use mini_router.Apply.Action.Triple.{
  Triple, Triple-bind, Triple-gets, Triple-now, Triple-if, Triple-pure, Triple-effect, Triple-post,
  Triple-known, Keeps, Keeps-pure, Keeps-bind, Keeps-effect,
}
use mini_router.Apply.Archive.{
  oldest, insert_name, sort_names, other_names, drop_all, prune_history, snapshot_from, named,
  saved,
}

pub snap_of-drop_snap :
    (x name : String) (l : List (String × Snapshot))
    → str_eq x name ≡ false
    → snap_of name (drop_snap x l) ≡ snap_of name l
snap_of-drop_snap x name [] h = refl
snap_of-drop_snap x name ((n, s) ∷ l) h =
    ground (arith, snap_of-drop_snap x name l, eq_iff n x, eq_iff n name, eq_iff x name)

named-other_names :
    (sys : System) (name : String) (l : List (String × Snapshot))
    → named name (other_names sys name l) ≡ false
unfolding other_names
named-other_names sys name [] = refl
named-other_names sys name ((n, s) ∷ l) = ground (arith, named-other_names sys name l)

module _ (sys : System) (name : String) where
  named-insert_name :
      (x : String) (l : List String)
      → str_eq x name ≡ false
      → named name l ≡ false
      → named name (insert_name sys x l) ≡ false
  unfolding insert_name
  named-insert_name x [] h k = ground arith
  named-insert_name x (y ∷ l) h k = ground (arith, named-insert_name x l)

  named-sort_names :
      (l : List String) → named name l ≡ false → named name (sort_names sys l) ≡ false
  unfolding sort_names
  named-sort_names [] h = refl
  named-sort_names (x ∷ l) h =
      ground (arith, named-sort_names l, named-insert_name x (sort_names sys l))

  named-oldest : (n : ℕ) (l : List String) → named name l ≡ false → named name (oldest n l) ≡ false
  unfolding oldest
  named-oldest zero l h = refl
  named-oldest (suc n) [] h = refl
  named-oldest (suc n) (x ∷ l) h = ground (arith, named-oldest n l)

-- The marker is not there yet, and the snapshot is.
pub record IsSaved (name : String) (s : Snapshot) (d : Disk) : Type 0 where
  pub unmarked : d.marker ≡ absent
  pub kept : snap_of name d.snaps ≡ some s

module _ (sys : System) (name : String) (s : Snapshot) where
  drop_one :
      (x : String) (d : Disk)
      → str_eq x name ≡ false
      → IsSaved name s d
      → IsSaved name s
          (record d { snaps = drop_snap x d.snaps; revisions = drop_revision x d.revisions })
  drop_one x d h i = record {
    unmarked = i.unmarked;
    kept = rw (snap_of-drop_snap x name d.snaps h) i.kept;
  }

  Keeps-drop_all :
      (l : List String) → named name l ≡ false → Keeps (IsSaved name s) (drop_all sys l)
  unfolding drop_all
  Keeps-drop_all [] h = Keeps-pure tt
  Keeps-drop_all (x ∷ l) h =
      Keeps-bind _ _ (Keeps-effect _ (λ d i. drop_one x d (ground arith) i))
        (λ _. Keeps-drop_all l (ground arith))

  -- whatever is pruned, the snapshot `name` stays
  pub Keeps-prune_history : (keep : ℕ) → Keeps (IsSaved name s) (prune_history sys keep name)
  unfolding prune_history
  Keeps-prune_history keep = record {
    triple =
        Triple-bind _ _
          (Triple-gets _
            (λ d i. (i, named-sort_names sys name _ (named-other_names sys name d.snaps))))
          (λ names. Triple-known (λ e.
            (Keeps-drop_all (oldest (length names - (keep - 1)) names)
              (named-oldest sys name (length names - (keep - 1)) names e)).triple));
  }

-- The disk on which a snapshot is about to be taken.
pub record IsFresh (f : Files) (d : Disk) : Type 0 where
  pub unmarked : d.marker ≡ absent
  pub same : d.files ≡ f

module _ (sys : System) (name : String) (paths : List FilePath) (src : FilePath → FilePath) where
  abbrev pub snapshot_of : Files → Snapshot
  snapshot_of f = record { entries = saved f src paths; covered = paths }

  -- A written snapshot holds what the disk held when it was taken; the marker is not touched, also
  -- when the power goes.
  pub snapshot_from-IsSaved :
      (f : Files) (keep : ℕ)
      → Triple
          (IsFresh f)
          (λ d. d.marker ≡ absent)
          (snapshot_from sys name paths keep src)
          (λ b d. if b then IsSaved name (snapshot_of f) d else (d.marker ≡ absent))
  unfolding snapshot_from
  snapshot_from-IsSaved f keep = Triple-bind _ _ (Triple-now (λ n d h. h)) (λ n.
      Triple-if (sys.snapshot_fails n) _ _ (λ _. Triple-pure false (λ d h. h.unmarked))
        (λ _.
          Triple-bind _ _
            (Triple-effect {Q = λ _. IsSaved name (snapshot_of f)} _ (λ d h. h.unmarked)
              (λ d h. record { unmarked = h.unmarked; kept = rw (eq_refl, h.same) }))
            (λ _.
              Triple-bind _ _
                (Triple-post _ (λ d h. h.unmarked) (λ a d h. h)
                  (Keeps-prune_history sys name (snapshot_of f) keep).triple)
                (λ _. Triple-pure true (λ d h. h)))))
