-- ===== src/Prelude/Sorting.antt =====
-- Python's `sorted`, a stable sort by a key, as an insertion sort over a Boolean order.
use Prim.Native.Nat.{suc}
use mathlib.Core.Bool.{Bool, true, false, ◌||◌}
use mathlib.Core.List.{List, [], ◌∷◌}
use mathlib.Core.Path.{◌≡◌, refl, sym, ap, ◌∙◌}
use mathlib.Core.Logic.{◌⊎◌, inl, inr}
use nanexus_event_intelligen.Prelude.Tests.{if◌then◌else◌, Bool-cases}
use native.Mathlib.Omega.{arith}
use nanexus_event_intelligen.Prelude.Lists.{All, All-map, Member, length}

-- `le` compares the keys.
module _ {ℓ} {A : Type ℓ} (le : A → A → Bool) where
  -- In front of the first element whose key is not smaller.
  unfoldable pub insert : A → List A → List A
  insert x [] = x ∷ []
  insert x (y ∷ ys) = if le x y then x ∷ y ∷ ys else y ∷ insert x ys

  unfoldable pub sorted : List A → List A
  unfolding insert
  sorted [] = []
  sorted (x ∷ xs) = insert x (sorted xs)

  abbrev pub IsSorted : List A → Type ℓ
  IsSorted [] = Unit
  IsSorted (x ∷ xs) = All (λ y. le x y ≡ true) xs × IsSorted xs

module _ {ℓ κ} {A : Type ℓ} (le : A → A → Bool) (P : A → Type κ) where
  pub All-insert : (x : A) (ys : List A) → P x → All P ys → All P (insert le x ys)
  unfolding insert
  All-insert x [] px h = (px, h)
  All-insert x (y ∷ ys) px h = elim (Bool-cases (le x y)) [
    | inl e ↦ rw e (px, h)
    | inr e ↦ rw e (h.0, All-insert x ys px h.1)
  ]

  pub All-of_insert : (x : A) (ys : List A) → All P (insert le x ys) → P x × All P ys
  unfolding insert
  All-of_insert x [] h = h
  All-of_insert x (y ∷ ys) h = elim (Bool-cases (le x y)) [
    | inl e ↦ let k : P x × All P (y ∷ ys) = rw e at h in k
    | inr e ↦
        let k : P y × All P (insert le x ys) = rw e at h in
        let r = All-of_insert x ys k.1 in (r.0, (k.0, r.1))
  ]

  -- Sorting keeps what holds of all elements, and brings none in.
  pub All-sorted : (xs : List A) → All P xs → All P (sorted le xs)
  unfolding sorted
  All-sorted [] h = h
  All-sorted (x ∷ xs) h = All-insert x (sorted le xs) h.0 (All-sorted xs h.1)

  pub All-of_sorted : (xs : List A) → All P (sorted le xs) → All P xs
  unfolding sorted
  All-of_sorted [] h = h
  All-of_sorted (x ∷ xs) h = let r = All-of_insert x (sorted le xs) h in (r.0, All-of_sorted xs r.1)

module _ {ℓ} {A : Type ℓ} (le : A → A → Bool) where
  length-insert : (x : A) (ys : List A) → length (insert le x ys) ≡ suc (length ys)
  unfolding insert
  length-insert x [] = refl
  length-insert x (y ∷ ys) = ground (arith, length-insert x ys)

  pub length-sorted : (xs : List A) → length (sorted le xs) ≡ length xs
  unfolding sorted
  length-sorted [] = refl
  length-sorted (x ∷ xs) = length-insert x (sorted le xs) ∙ ap suc (length-sorted xs)

module _ {A : Type 0} (le : A → A → Bool) where
  Member-of_insert : (a x : A) (ys : List A) → Member a (insert le x ys) → Member a (x ∷ ys)
  unfolding insert
  Member-of_insert a x [] m = m
  Member-of_insert a x (y ∷ ys) m = elim (Bool-cases (le x y)) [
    | inl e ↦ let k : Member a (x ∷ y ∷ ys) = rw e at m in k
    | inr e ↦
        let k : (a ≡ y) ⊎ Member a (insert le x ys) = rw e at m in
        elim k [
          | inl p ↦ inr (inl p)
          | inr r ↦ elim (Member-of_insert a x ys r) [ inl p ↦ inl p | inr q ↦ inr (inr q) ]
        ]
  ]

  pub Member-of_sorted : (a : A) (xs : List A) → Member a (sorted le xs) → Member a xs
  unfolding sorted
  Member-of_sorted a [] m = m
  Member-of_sorted a (x ∷ xs) m = elim (Member-of_insert a x (sorted le xs) m) [
    | inl p ↦ inl p
    | inr r ↦ inr (Member-of_sorted a xs r)
  ]

-- A total and transitive order: the result is sorted, and depends on the elements alone.
module _ {ℓ} {A : Type ℓ} (le : A → A → Bool) (le_total : (x y : A) → (le x y || le y x) ≡ true)
    (le_trans : (x y z : A) → le x y ≡ true → le y z ≡ true → le x z ≡ true) where
  insert-IsSorted : (x : A) (ys : List A) → IsSorted le ys → IsSorted le (insert le x ys)
  unfolding insert
  insert-IsSorted x [] h = (tt, tt)
  insert-IsSorted x (y ∷ ys) h = elim (Bool-cases (le x y)) [
    | inl e ↦
        rw e
          ((e, All-map (λ z. le y z ≡ true) (λ z. le x z ≡ true) (λ z. le_trans x y z e) ys h.0), h)
    | inr e ↦ rw e (
      All-insert le (λ z. le y z ≡ true) x ys (ground (arith, le_total x y)) h.0,
      insert-IsSorted x ys h.1,
    )
  ]

  pub sorted-IsSorted : (xs : List A) → IsSorted le (sorted le xs)
  unfolding sorted
  sorted-IsSorted [] = tt
  sorted-IsSorted (x ∷ xs) = insert-IsSorted x (sorted le xs) (sorted-IsSorted xs)

  insert_comm_lt :
      (x y : A) (zs : List A)
      → le x y ≡ true
      → le y x ≡ false
      → insert le x (insert le y zs) ≡ insert le y (insert le x zs)
  unfolding insert
  insert_comm_lt x y [] a b = ground arith
  insert_comm_lt x y (z ∷ zs) a b =
      ground (arith, le_trans x y z, le_total y z, insert_comm_lt x y zs a b)

  -- Elements with different keys may be inserted in either order.
  pub insert_comm :
      (x y : A) (zs : List A)
      → ¬ ((le x y ≡ true) × (le y x ≡ true))
      → insert le x (insert le y zs) ≡ insert le y (insert le x zs)
  insert_comm x y zs h = elim (Bool-cases (le x y)) [
    | inl a ↦ elim (Bool-cases (le y x)) [
      | inl b ↦ absurd (h (a, b))
      | inr b ↦ insert_comm_lt x y zs a b
    ]
    | inr a ↦ sym (insert_comm_lt y x zs (ground (arith, le_total x y)) a)
  ]
