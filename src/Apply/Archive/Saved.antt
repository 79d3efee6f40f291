-- ===== src/Apply/Archive/Saved.antt =====
-- What a snapshot holds: the content of each path's source, and nothing for a source that is missing.
use mini_router.Prelude.{
  ◌≡◌, refl, true, String, none, some, List, [], ◌∷◌, arith, ap, All, if◌then◌else◌, Option-cases,
  Bool-cases, inl, inr,
}
use mini_router.Apply.Disk.{FilePath, path_eq, path_eq_iff, Files}
use mini_router.Apply.Archive.{saved, listed, entry_of}

module _ (f : Files) (src : FilePath → FilePath) where
  saved-none :
      (q : FilePath) (paths : List FilePath)
      → f (src q) ≡ none
      → saved f src (q ∷ paths) ≡ saved f src paths
  unfolding saved
  saved-none q paths e = rw (saved, e)

  saved-some :
      (q : FilePath) (paths : List FilePath) {s : String}
      → f (src q) ≡ some s
      → saved f src (q ∷ paths) ≡ (q, s) ∷ saved f src paths
  unfolding saved
  saved-some q paths e = rw (saved, e)

  -- a covered path is saved as its source was; no other path has an entry
  pub entry_of-saved :
      (p : FilePath) (paths : List FilePath)
      → entry_of p (saved f src paths) ≡ (if listed p paths then f (src p) else none)
  entry_of-saved p [] = unfold saved in refl
  entry_of-saved p (q ∷ paths) =
      let same : path_eq q p ≡ true → f (src q) ≡ f (src p) =
        λ e. ap (λ x. f (src x)) ((path_eq_iff q p).0 e) in
      elim (Option-cases (f (src q))) [
        | inl e ↦
            rw (saved-none q paths e, entry_of-saved p paths)
              (elim (Bool-cases (path_eq q p)) [
                | inl y ↦ rw y (ground (arith, same y))
                | inr n ↦ rw n
              ])
        | inr (s, e) ↦
            rw (saved-some q paths e, entry_of-saved p paths)
              (elim (Bool-cases (path_eq q p)) [ inl y ↦ rw y (cc (same y)) | inr n ↦ rw n ])
      ]

  -- every entry is its path's
  pub All-saved : (paths : List FilePath) → All (λ e. f (src e.0) ≡ some e.1) (saved f src paths)
  All-saved [] = unfold saved in tt
  All-saved (p ∷ paths) = elim (Option-cases (f (src p))) [
    | inl e ↦ rw (saved-none p paths e) (All-saved paths)
    | inr (s, e) ↦ rw (saved-some p paths e) (e, All-saved paths)
  ]
