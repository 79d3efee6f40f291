-- ===== src/Login/Sources.antt =====
-- The records of all sources: what one attempt changes of them.
use text.Mathlib.Text.{◌==◌ as str_eq}
use mini_router.Prelude.{
  ℕ, ◌+◌, ◌≤◌, ◌<◌, ◌≡◌, refl, Bool, true, false, ◌||◌, String, [], ◌∷◌, if◌then◌else◌, length,
  arith, eq_iff, Bool-cases, inl, inr, ap, ◌∙◌, sym,
}
use mini_router.Login.{
  LoginRec, no_rec, attempt, Records, find_rec, drop_rec, is_no_rec, put_rec, is_idle, drop_idle,
  prune_sources, login_update, login_begin, stored,
}

abbrev pub has_key : String → Records → Bool
has_key key [] = false
has_key key ((k, r) ∷ m) = let rest = has_key key m in str_eq k key || rest

-- each source has one record
abbrev pub IsDistinct : Records → Type 0
IsDistinct [] = Unit
IsDistinct ((k, r) ∷ m) = (has_key k m ≡ false) × IsDistinct m

find_rec-lacks : (k : String) (m : Records) → has_key k m ≡ false → find_rec k m ≡ no_rec
unfolding find_rec
find_rec-lacks k [] h = refl
find_rec-lacks k ((j, r) ∷ m) h = ground (arith, find_rec-lacks k m)

has_key-drop_rec :
    (k j : String) (m : Records) → has_key k m ≡ false → has_key k (drop_rec j m) ≡ false
has_key-drop_rec k j [] h = refl
has_key-drop_rec k j ((i, r) ∷ m) h = ground (arith, has_key-drop_rec k j m)

has_key-drop_rec_self : (k : String) (m : Records) → has_key k (drop_rec k m) ≡ false
has_key-drop_rec_self k [] = refl
has_key-drop_rec_self k ((i, r) ∷ m) = ground (arith, has_key-drop_rec_self k m)

IsDistinct-drop_rec : (k : String) (m : Records) → IsDistinct m → IsDistinct (drop_rec k m)
IsDistinct-drop_rec k [] d = tt
IsDistinct-drop_rec k ((i, r) ∷ m) d = elim (Bool-cases (str_eq i k)) [
  | inl e ↦ rw e (IsDistinct-drop_rec k m d.1)
  | inr e ↦ rw e (has_key-drop_rec i k m d.0, IsDistinct-drop_rec k m d.1)
]

find_rec-drop_rec :
    (k j : String) (m : Records)
    → find_rec j (drop_rec k m) ≡ (if str_eq k j then no_rec else find_rec j m)
unfolding find_rec
find_rec-drop_rec k j [] = ground arith
find_rec-drop_rec k j ((i, r) ∷ m) =
    ground (arith, eq_iff i k, eq_iff i j, eq_iff k j, find_rec-drop_rec k j m)

no_rec_of : (r : LoginRec) → is_no_rec r ≡ true → r ≡ no_rec
no_rec_of r h = ground arith

find_rec-put_rec :
    (k j : String) (r : LoginRec) (m : Records)
    → find_rec j (put_rec k r m) ≡ (if str_eq k j then r else find_rec j m)
unfolding find_rec put_rec
find_rec-put_rec k j r m = ground (arith, no_rec_of r, find_rec-drop_rec k j m)

IsDistinct-put_rec :
    (k : String) (r : LoginRec) (m : Records) → IsDistinct m → IsDistinct (put_rec k r m)
unfolding put_rec
IsDistinct-put_rec k r m d = elim (Bool-cases (is_no_rec r)) [
  | inl e ↦ rw e (IsDistinct-drop_rec k m d)
  | inr e ↦ rw e (has_key-drop_rec_self k m, IsDistinct-drop_rec k m d)
]

-- the record, if it is not forgotten
abbrev pub kept : ℕ → LoginRec → LoginRec
kept now r = if is_idle now r then no_rec else r

has_key-drop_idle :
    (now : ℕ) (k : String) (m : Records) → has_key k m ≡ false → has_key k (drop_idle now m) ≡ false
unfolding drop_idle
has_key-drop_idle now k [] h = refl
has_key-drop_idle now k ((i, r) ∷ m) h = ground (arith, has_key-drop_idle now k m)

kept-no_rec : (now : ℕ) → kept now no_rec ≡ no_rec
kept-no_rec now = ground arith

find_rec-drop_idle :
    (now : ℕ) (k : String) (m : Records)
    → IsDistinct m
    → find_rec k (drop_idle now m) ≡ kept now (find_rec k m)
unfolding find_rec drop_idle
find_rec-drop_idle now k [] d = sym (kept-no_rec now)
find_rec-drop_idle now k ((i, r) ∷ m) d = ground (
  arith,
  eq_iff i k,
  find_rec-lacks i (drop_idle now m) (has_key-drop_idle now i m d.0),
  find_rec-drop_idle now k m d.1,
)

length-drop_rec : (k : String) (m : Records) → length (drop_rec k m) ≤ length m
length-drop_rec k [] = omega arith
length-drop_rec k ((i, r) ∷ m) = ground (arith, length-drop_rec k m)

length-put_rec : (k : String) (r : LoginRec) (m : Records) → length (put_rec k r m) ≤ length m + 1
unfolding put_rec
length-put_rec k r m = ground (arith, length-drop_rec k m)

length-drop_idle : (now : ℕ) (m : Records) → length (drop_idle now m) ≤ length m
unfolding drop_idle
length-drop_idle now [] = omega arith
length-drop_idle now ((i, r) ∷ m) = ground (arith, length-drop_idle now m)

prune_sources_few : (m : Records) → length m ≤ 1024 → prune_sources m ≡ m
unfolding prune_sources
prune_sources_few m h = ground arith

find_rec-login_update :
    (key k : String) (r : LoginRec) (now : ℕ) (m : Records)
    → IsDistinct m
    → length m < 1024
    → find_rec k (login_update key r now m) ≡ kept now (if str_eq key k then r else find_rec k m)
unfolding login_update
find_rec-login_update key k r now m d few =
    let small : length (drop_idle now (put_rec key r m)) ≤ 1024 =
      omega (arith, length-put_rec key r m, length-drop_idle now (put_rec key r m)) in
    ap (find_rec k) (prune_sources_few (drop_idle now (put_rec key r m)) small)
    ∙ find_rec-drop_idle now k (put_rec key r m) (IsDistinct-put_rec key r m d)
    ∙ ap (kept now) (find_rec-put_rec key k r m)

-- the records stay one of each source
IsDistinct-drop_idle : (now : ℕ) (m : Records) → IsDistinct m → IsDistinct (drop_idle now m)
unfolding drop_idle
IsDistinct-drop_idle now [] d = tt
IsDistinct-drop_idle now ((i, r) ∷ m) d = elim (Bool-cases (is_idle now r)) [
  | inl e ↦ rw e (IsDistinct-drop_idle now m d.1)
  | inr e ↦ rw e (has_key-drop_idle now i m d.0, IsDistinct-drop_idle now m d.1)
]

pub IsDistinct-login_begin :
    (key : String) (now : ℕ) (m : Records)
    → IsDistinct m
    → length m < 1024
    → IsDistinct (login_begin stored key now m).0
unfolding login_begin login_update
IsDistinct-login_begin key now m d few =
    let r = (attempt (find_rec key m) now).0 in
    let small : length (drop_idle now (put_rec key r m)) ≤ 1024 =
      omega (arith, length-put_rec key r m, length-drop_idle now (put_rec key r m)) in
    rw (prune_sources_few (drop_idle now (put_rec key r m)) small)
      (IsDistinct-drop_idle now (put_rec key r m) (IsDistinct-put_rec key r m d))

-- With fewer than 1024 records, one of each source, an attempt that is written changes the record of its own source
-- alone, but that records idle for a day are forgotten.
pub find_rec-login_begin :
    (key k : String) (now : ℕ) (m : Records)
    → IsDistinct m
    → length m < 1024
    → find_rec k (login_begin stored key now m).0
      ≡ kept now (if str_eq key k then (attempt (find_rec key m) now).0 else find_rec k m)
unfolding login_begin
find_rec-login_begin key k now m d few =
    find_rec-login_update key k (attempt (find_rec key m) now).0 now m d few
