-- ===== src/Prelude/Texts.antt =====
-- Texts as Python's `str`: concatenation, `", ".join`, and the order by code points.
use Prim.Native.Nat.{ℕ, zero, suc, Ordering, compare as compare_ℕ}
use Prim.Native.Char.{code}
use Prim.Native.String.{String, ◌∷◌ as cons, compare, count, then, ◌++◌ as append_text}
use Prim.Native.String.compare
use mathlib.Core.Path.{◌≡◌, refl, ap₂}
use mathlib.Core.Bool.{Bool, true, false, ◌||◌}
use mathlib.Core.List.{List, [], ◌∷◌}
use native.Mathlib.Omega.{arith}
use text.Mathlib.TextEquality.{Char-path}

-- `s + t`
abbrev pub append : String → String → String
append s t = append_text s t

-- `len(s)`
abbrev pub text_length : String → ℕ
text_length s = count s

-- `sep.join(parts)`
unfoldable pub join : String → List String → String
join sep [] = ""
join sep (s ∷ []) = s
join sep (s ∷ t ∷ ts) = append s (append sep (join sep (t ∷ ts)))

-- `s[:n]`
unfoldable pub truncate : ℕ → String → String
truncate zero s = ""
truncate (suc n) String.[] = ""
truncate (suc n) (String.◌∷◌ c s) = cons c (truncate n s)

abbrev not_gt : Ordering → Bool
not_gt Ordering.gt = false
not_gt _ = true

-- `s <= t`
abbrev pub text_leb : String → String → Bool
text_leb s t = not_gt (compare s t)

then_total :
    (m n : ℕ) (o p : Ordering)
    → (not_gt o || not_gt p) ≡ true
    → (not_gt (then (compare_ℕ m n) o) || not_gt (then (compare_ℕ n m) p)) ≡ true
then_total m n o p h = ground arith

then_trans :
    (l m n : ℕ) (o p q : Ordering)
    → (not_gt o ≡ true → not_gt p ≡ true → not_gt q ≡ true)
    → not_gt (then (compare_ℕ l m) o) ≡ true
    → not_gt (then (compare_ℕ m n) p) ≡ true
    → not_gt (then (compare_ℕ l n) q) ≡ true
then_trans l m n o p q h a b = ground arith

pub text_leb_total : (s t : String) → (text_leb s t || text_leb t s) ≡ true
text_leb_total String.[] String.[] = refl
text_leb_total String.[] (String.◌∷◌ d t) = simp (compare.cons-nil, compare.nil-cons)
text_leb_total (String.◌∷◌ c s) String.[] = simp (compare.cons-nil, compare.nil-cons)
text_leb_total (String.◌∷◌ c s) (String.◌∷◌ d t) =
    simp compare.cons-cons
      (then_total (code c) (code d) (compare s t) (compare t s) (text_leb_total s t))

pub text_leb_trans :
    (s t u : String) → text_leb s t ≡ true → text_leb t u ≡ true → text_leb s u ≡ true
text_leb_trans String.[] t String.[] h k = refl
text_leb_trans String.[] t (String.◌∷◌ e u) h k = rw compare.nil-cons
text_leb_trans (String.◌∷◌ c s) String.[] u h k = cc (compare.cons-nil c s)
text_leb_trans (String.◌∷◌ c s) (String.◌∷◌ d t) String.[] h k = cc (compare.cons-nil d t)
text_leb_trans (String.◌∷◌ c s) (String.◌∷◌ d t) (String.◌∷◌ e u) h k = rw compare.cons-cons (
    then_trans (code c) (code d) (code e) (compare s t) (compare t u) (compare s u)
      (text_leb_trans s t u) (rw compare.cons-cons at h) (rw compare.cons-cons at k))

then_antisymm :
    (m n : ℕ) (o p : Ordering)
    → not_gt (then (compare_ℕ m n) o) ≡ true
    → not_gt (then (compare_ℕ n m) p) ≡ true
    → (m ≡ n) × (not_gt o ≡ true) × (not_gt p ≡ true)
then_antisymm m n o p a b = ground arith

pub text_leb_antisymm : (s t : String) → text_leb s t ≡ true → text_leb t s ≡ true → s ≡ t
text_leb_antisymm String.[] String.[] h k = refl
text_leb_antisymm String.[] (String.◌∷◌ d t) h k = cc (compare.cons-nil d t)
text_leb_antisymm (String.◌∷◌ c s) String.[] h k = cc (compare.cons-nil c s)
text_leb_antisymm (String.◌∷◌ c s) (String.◌∷◌ d t) h k =
    let (e, a, b) =
      then_antisymm (code c) (code d) (compare s t) (compare t s) (rw compare.cons-cons at h)
        (rw compare.cons-cons at k) in
    ap₂ cons (Char-path c d e) (text_leb_antisymm s t a b)
