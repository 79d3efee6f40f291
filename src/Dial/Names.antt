-- ===== src/Dial/Names.antt =====
-- The loop of netValidateDial has no errors exactly for different names of PPPoE WANs.
use text.Mathlib.Text.{◌==◌ as str_eq}
use mini_router.Prelude.{
  ◌≡◌, refl, true, false, String, Option, none, some, List, [], ◌∷◌, subst, sym, eq_iff, IsIn,
  arith, Bool-cases, inl, inr,
}
use mini_router.Dial.{Wan, has_name, order_errors, is_pppoe}

-- each name is that of a PPPoE WAN
abbrev pub AllPppoe : (String → Option Wan) → List String → Type 0
AllPppoe wan_by_name names =
    (n : String) → IsIn n names → (w : Wan) × (wan_by_name n ≡ some w) × (w.is_pppoe ≡ true)

-- no name stands twice
abbrev pub IsDistinct : List String → Type 0
IsDistinct [] = Unit
IsDistinct (n ∷ names) = (IsIn n names → ⊥) × IsDistinct names

is_pppoe_iff : (x : Option Wan) → is_pppoe x ≡ true → (w : Wan) × (x ≡ some w) × (w.is_pppoe ≡ true)
is_pppoe_iff none e = cc
is_pppoe_iff (some w) e = (w, refl, e)

-- the names are new to those that were seen
abbrev pub AllNew : List String → List String → Type 0
AllNew seen names = (n : String) → IsIn n names → has_name n seen ≡ false

AllNew-tail :
    (n : String) (seen names : List String)
    → has_name n seen ≡ false
    → AllNew (n ∷ seen) names
    → AllNew seen (n ∷ names)
AllNew-tail n seen names fresh new k (inl e) = subst (λ x. has_name x seen ≡ false) e fresh
AllNew-tail n seen names fresh new k (inr i) = let later = new k i in ground arith

has_name-AllNew :
    (n : String) (seen names : List String) → AllNew (n ∷ seen) names → has_name n names ≡ false
has_name-AllNew n seen [] new = refl
has_name-AllNew n seen (m ∷ names) new =
    let other = new m (inl refl) in
    let rest = has_name-AllNew n seen names (λ k i. new k (inr i)) in
    ground (arith, eq_iff m n, eq_iff n m)

IsIn-has_name : (n : String) (names : List String) → has_name n names ≡ false → IsIn n names → ⊥
IsIn-has_name n [] e k = k
IsIn-has_name n (m ∷ names) e (inl k) = let same = (eq_iff m n).1 k in ground arith
IsIn-has_name n (m ∷ names) e (inr k) = IsIn-has_name n names (ground arith) k

pub order_errors-none :
    (wan_by_name : String → Option Wan) (seen names : List String)
    → order_errors wan_by_name seen names ≡ []
    → AllPppoe wan_by_name names × IsDistinct names × AllNew seen names
unfolding order_errors
order_errors-none wan_by_name seen [] e = (λ n k. absurd k, tt, λ n k. absurd k)
order_errors-none wan_by_name seen (n ∷ names) e =
    let fine : is_pppoe (wan_by_name n) ≡ true = ground arith in
    let fresh : has_name n seen ≡ false = ground arith in
    let rest : order_errors wan_by_name (n ∷ seen) names ≡ [] = ground arith in
    let (all, distinct, new) = order_errors-none wan_by_name (n ∷ seen) names rest in
    (
      all_from (is_pppoe_iff (wan_by_name n) fine) all,
      (IsIn-has_name n names (has_name-AllNew n seen names new), distinct),
      AllNew-tail n seen names fresh new,
    )
  where
    all_from :
        (w : Wan) × (wan_by_name n ≡ some w) × (w.is_pppoe ≡ true)
        → AllPppoe wan_by_name names
        → AllPppoe wan_by_name (n ∷ names)
    all_from here all k (inl e) =
        subst (λ x. (w : Wan) × (wan_by_name x ≡ some w) × (w.is_pppoe ≡ true)) e here
    all_from here all k (inr i) = all k i

pub none-order_errors :
    (wan_by_name : String → Option Wan) (seen names : List String)
    → AllPppoe wan_by_name names
    → IsDistinct names
    → AllNew seen names
    → order_errors wan_by_name seen names ≡ []
unfolding order_errors
none-order_errors wan_by_name seen [] all distinct new = refl
none-order_errors wan_by_name seen (n ∷ names) all (single, distinct) new =
    let (w, e, pppoe) = all n (inl refl) in
    let fine : is_pppoe (wan_by_name n) ≡ true = rw e pppoe in
    let fresh = new n (inl refl) in
    let rest =
      none-order_errors wan_by_name (n ∷ seen) names (λ k i. all k (inr i)) distinct
        (λ k i. elim (Bool-cases (str_eq n k)) [
          | inl e ↦ absurd (single (subst (λ x. IsIn x names) (sym ((eq_iff n k).0 e)) i))
          | inr e ↦ let before = new k (inr i) in ground arith
        ]) in
    rw (fine, fresh) rest
