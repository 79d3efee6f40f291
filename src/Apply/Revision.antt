-- ===== src/Apply/Revision.antt =====
-- Revisions of mr/history.go: newRevision and setResult on the records beside the snapshots.
use text.Mathlib.Text.{◌==◌ as str_eq}
use mini_router.Prelude.{ℕ, ◌+◌, max, String, List, [], ◌∷◌, if◌then◌else◌}
use mini_router.Apply.Disk.{Revision}
use mini_router.Apply.Action.{M, effect}

-- the highest number so far: the last of the records in the order of their numbers
unfoldable pub last_rev : List Revision → ℕ
last_rev [] = 0
last_rev (r ∷ l) = max r.rev (last_rev l)

-- newRevision
unfoldable pub new_revision : String → String → M Unit
new_revision snap via = effect (λ d. record d {
  revisions =
      record { rev = last_rev d.revisions + 1; via = via; result = "applying"; snapshot = snap }
      ∷ d.revisions;
})

unfoldable pub with_result : String → String → List Revision → List Revision
with_result snap result [] = []
with_result snap result (r ∷ l) =
    (if str_eq r.snapshot snap then record r { result = result } else r) ∷ with_result snap result l

-- setResult
unfoldable pub set_result : String → String → M Unit
set_result snap result = effect (λ d. record d { revisions = with_result snap result d.revisions })
