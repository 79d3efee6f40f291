-- ===== src/Apply/Restore/PutBack.antt =====
-- Restoring a snapshot at boot puts every covered path back, where no write fails.
use mini_router.Prelude.{
  ℕ, ◌≡◌, refl, Bool, true, false, ◌&&◌, ◌||◌, String, Option, none, some, List, [], ◌∷◌, ap, All,
  Bool-cases, inl, inr, ◌∙◌, sym,
}
use mini_router.Apply.Disk.{
  FilePath, path_eq, path_eq_iff, Files, Disk, Snapshot, secrets_path, snap_of,
}
use mini_router.Apply.System.{System}
use mini_router.Apply.Action.{◌>>◌, pure}
use mini_router.Apply.Action.Triple.{
  Triple, Triple-bind, Triple-gets, Triple-now, Triple-pure, Triple-effect, Triple-pre,
  Triple-known, Triple-when, Triple-post,
}
use mini_router.Apply.Archive.{put_file, remove_file, write_atomic, listed, entry_of}
use mini_router.Apply.Restore.{
  restored_text, restore_entries, remove_uncovered, remove_missing, restore_removed,
  restore_snapshot, restore, removed_wan_service,
}

abbrev is_none : Option String → Bool
is_none none = true
is_none (some s) = false

unlisted : (b : Bool) → (b && false) ≡ false
unlisted true = refl
unlisted false = refl

-- Where a program is cut, nothing is claimed here.
abbrev pub Any : Disk → Type 0
Any d = Unit

module _ (sys : System) (no_error : (n : ℕ) (p : FilePath) → sys.io_fails n p ≡ false) where
  -- a write without an error is done
  pub write_atomic-done :
      {P Q : Disk → Type 0} (p : FilePath) (s : String)
      → ((d : Disk) → P d → Q (put_file p (some s) d))
      → Triple P Any (write_atomic sys p s) (λ b d. (b ≡ true) × Q d)
  unfolding write_atomic
  write_atomic-done {P} {Q} p s h = Triple-bind _ _ (Triple-now (λ n d i. i)) (λ n.
      rw (no_error n p) (
        Triple-bind _ _ (Triple-effect {Q = λ _. Q} _ (λ d i. tt) h)
          (λ _. Triple-pure true (λ d i. (refl, i)))))

module _ (sys : System) (no_error : (n : ℕ) (p : FilePath) → sys.io_fails n p ≡ false) where
  restore_entries-done :
      (l : List (FilePath × String))
      → Triple Any Any (restore_entries sys l) (λ b d. (b ≡ true) × Any d)
  unfolding restore_entries
  restore_entries-done [] = Triple-pure true (λ d h. (refl, h))
  restore_entries-done ((p, s) ∷ l) =
      Triple-bind _ _ (Triple-gets (λ d. restored_text sys d.files p s) (λ d h. h)) (λ text.
        Triple-bind _ _ (write_atomic-done sys no_error {P = Any} {Q = Any} p text (λ d w. tt))
          (λ done. Triple-when done _ (restore_entries-done l)))

module _ (q : FilePath) (v : Option String) where
  -- what is still to be written of `q`, or is right already
  abbrev Written : List (FilePath × String) → Disk → Type 0
  Written l d = entry_of q l ≡ none → d.files q ≡ v

  abbrev pub Matches : FilePath × String → Type 0
  Matches e = path_eq e.0 q ≡ true → v ≡ some e.1

  Written-step :
      (p : FilePath) (s text : String) (l : List (FilePath × String)) (d : Disk)
      → Matches (p, s)
      → (path_eq p q ≡ true → text ≡ s)
      → Written ((p, s) ∷ l) d
      → Written l (put_file p (some text) d)
  Written-step p s text l d m t w e = elim (Bool-cases (path_eq p q)) [
    | inl y ↦ rw y (ap {B = Option String} some (t y) ∙ sym (m y))
    | inr n ↦ rw n (w (rw n e))
  ]

  -- what is still to be removed of `q`, or is right already
  abbrev Removed : List (FilePath × String) → List FilePath → Disk → Type 0
  Removed e l d = (listed q l && is_none (entry_of q e)) ≡ false → d.files q ≡ v

  Removed-step :
      (p : FilePath) (e : List (FilePath × String)) (l : List FilePath) (d : Disk)
      → entry_of p e ≡ none
      → (entry_of q e ≡ none → v ≡ none)
      → Removed e (p ∷ l) d
      → Removed e l (put_file p none d)
  Removed-step p e l d none_p gone r h = elim (Bool-cases (path_eq p q)) [
    | inl y ↦ rw y (sym (gone (ap (λ x. entry_of x e) (sym ((path_eq_iff p q).0 y)) ∙ none_p)))
    | inr n ↦ rw n (r (rw n h))
  ]

  kept_step :
      (p : FilePath) {s : String} (e : List (FilePath × String)) (l : List FilePath) (d : Disk)
      → entry_of p e ≡ some s
      → Removed e (p ∷ l) d
      → Removed e l d
  kept_step p e l d some_p r h = elim (Bool-cases (path_eq p q)) [
    | inl y ↦ r (
        rw (ap (λ x. entry_of x e) (sym ((path_eq_iff p q).0 y)) ∙ some_p)
          (unlisted (path_eq p q || listed q l)))
    | inr n ↦ r (rw n h)
  ]

module _ (sys : System) (no_error : (n : ℕ) (p : FilePath) → sys.io_fails n p ≡ false)
    (q : FilePath) (v : Option String) (plain : path_eq secrets_path q ≡ false) where
  plain_text :
      (f : Files) (p : FilePath) (s : String) → path_eq p q ≡ true → restored_text sys f p s ≡ s
  unfolding restored_text
  plain_text f p s y = rw ((path_eq_iff p q).0 y, plain)

  restore_entries-Written :
      (l : List (FilePath × String))
      → All (Matches q v) l
      → Triple (Written q v l) Any (restore_entries sys l) (λ b d. (b ≡ true) × Written q v [] d)
  unfolding restore_entries
  restore_entries-Written [] m = Triple-pure true (λ d h. (refl, h))
  restore_entries-Written ((p, s) ∷ l) (m, ms) =
      Triple-bind _ _
        (Triple-gets {Q = λ text d. Written q v ((p, s) ∷ l) d × (path_eq p q ≡ true → text ≡ s)}
          (λ d. restored_text sys d.files p s) (λ d h. (h, plain_text d.files p s)))
        (λ text. Triple-known {P = Written q v ((p, s) ∷ l)} (λ t.
          Triple-bind _ _
            (write_atomic-done sys no_error {P = Written q v ((p, s) ∷ l)} {Q = Written q v l} p
              text (λ d w. Written-step q v p s text l d m t w))
            (λ done. Triple-when done _ (restore_entries-Written l ms))))

  remove_file-Removed :
      (p : FilePath) (e : List (FilePath × String)) (l : List FilePath) (stopped : List String)
      → entry_of p e ≡ none
      → (entry_of q e ≡ none → v ≡ none)
      → Triple (Removed q v e (p ∷ l)) Any (do remove_file p; pure stopped) (λ _. Removed q v e l)
  remove_file-Removed p e l stopped none_p gone =
      Triple-bind _ _
        (Triple-effect {Q = λ _. Removed q v e l} _ (λ d h. tt)
          (λ d h. Removed-step q v p e l d none_p gone h))
        (λ _. Triple-pure stopped (λ d h. h))

  -- at boot no service is stopped
  remove_missing-Removed :
      (p : FilePath) (e : List (FilePath × String)) (l : List FilePath) (stopped : List String)
      (o : Option String)
      → entry_of p e ≡ o
      → (entry_of q e ≡ none → v ≡ none)
      → Triple
          (Removed q v e (p ∷ l))
          Any
          (remove_missing sys false p o stopped)
          (λ _. Removed q v e l)
  unfolding remove_missing
  remove_missing-Removed p e l stopped (some s) eo gone =
      Triple-pure stopped (λ d h. kept_step q v p e l d eo h)
  remove_missing-Removed p e l stopped none eo gone = by_service (removed_wan_service p)
    where
      by_service :
          (o : Option String)
          → Triple
              (Removed q v e (p ∷ l))
              Any
              (remove_uncovered sys false p o stopped)
              (λ _. Removed q v e l)
      by_service none = unfold remove_uncovered in remove_file-Removed p e l stopped eo gone
      by_service (some s) = unfold remove_uncovered in remove_file-Removed p e l stopped eo gone

  restore_removed-Removed :
      (e : List (FilePath × String)) (l : List FilePath) (stopped : List String)
      → (entry_of q e ≡ none → v ≡ none)
      → Triple (Removed q v e l) Any (restore_removed sys false e l stopped) (λ _ d. d.files q ≡ v)
  unfolding restore_removed
  restore_removed-Removed e [] stopped gone = Triple-pure tt (λ d h. h refl)
  restore_removed-Removed e (p ∷ l) stopped gone =
      Triple-bind _ _ (remove_missing-Removed p e l stopped (entry_of p e) refl gone)
        (λ stopped'. restore_removed-Removed e l stopped' gone)

  -- a covered path, and any path with an entry, is put back
  pub restore_snapshot-put_back :
      (s : Snapshot)
      → All (Matches q v) s.entries
      → listed q s.covered ≡ true
      → entry_of q s.entries ≡ v
      → Triple Any Any (restore_snapshot sys false (some s)) (λ b d. (b ≡ true) × (d.files q ≡ v))
  unfolding restore_snapshot
  restore_snapshot-put_back s m lq ev =
      Triple-bind _ _ (entries (entry_of q s.entries) refl) (λ done. Triple-when done _ (
        Triple-bind _ _ (restore_removed-Removed s.entries s.covered [] (λ e. sym ev ∙ e))
          (λ _. Triple-pure true (λ d h. (refl, h)))))
    where
      entries :
          (o : Option String)
          → entry_of q s.entries ≡ o
          → Triple Any Any
              (restore_entries sys s.entries)
              (λ b d. (b ≡ true) × Removed q v s.entries s.covered d)
      entries none e =
          Triple-post _ (λ d h. h) (λ b d h. (h.0, λ r. cc (lq, r, ap is_none e)))
            (restore_entries-done sys no_error s.entries)
      entries (some x) e =
          Triple-pre _ (λ d h none_e. cc (e, none_e))
            (Triple-post _ (λ d h. h) (λ b d h. (h.0, λ r. h.1 refl))
              (restore_entries-Written s.entries m))

  -- the same for restore, by the snapshot's name
  pub restore-put_back :
      (snap : String) (s : Snapshot)
      → All (Matches q v) s.entries
      → listed q s.covered ≡ true
      → entry_of q s.entries ≡ v
      → Triple
          (λ d. snap_of snap d.snaps ≡ some s)
          Any
          (restore sys snap false)
          (λ b d. (b ≡ true) × (d.files q ≡ v))
  unfolding restore
  restore-put_back snap s m lq ev =
      Triple-bind _ _
        (Triple-gets {Q = λ o d. Any d × (o ≡ some s)} (λ d. snap_of snap d.snaps) (λ d h. (tt, h)))
        (λ o. Triple-known (λ e. rw e (restore_snapshot-put_back s m lq ev)))
