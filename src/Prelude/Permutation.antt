-- ===== src/Prelude/Permutation.antt =====
-- Python's `sorted` on two lists that are the same up to order.
use mathlib.Core.List.{Permᴰ}
use mathlib.Core.Path.{ap₂, subst, subst₂}
use nanexus_event_intelligen.Prelude.{◌≡◌, refl, sym, ◌∙◌, Bool, true, ◌||◌, List, [], ◌∷◌, All}
use nanexus_event_intelligen.Prelude.Sorting.{sorted, insert, insert_comm}

All-perm : {A : Type 0} (P : A → Type 0) {xs ys : List A} → Permᴰ xs ys → All P xs → All P ys
All-perm P Permᴰ.nil h = h
All-perm P (Permᴰ.cons e p) h = (subst P e h.0, All-perm P p h.1)
All-perm P (Permᴰ.swap e e') h = (subst P e' h.1.0, (subst P e h.0, h.1.1))
All-perm P (Permᴰ.trans p q) h = All-perm P q (All-perm P p h)

module _ {A : Type 0} (le : A → A → Bool) where
  -- Two elements whose keys are the same, and lists without two such elements.
  abbrev pub SameKey : A → A → Type 0
  SameKey a b = (le a b ≡ true) × (le b a ≡ true)

  abbrev pub HasDistinctKeys : List A → Type 0
  HasDistinctKeys [] = Unit
  HasDistinctKeys (r ∷ rs) = All (λ s. ¬ SameKey r s) rs × HasDistinctKeys rs

  HasDistinctKeys-perm : {xs ys : List A} → Permᴰ xs ys → HasDistinctKeys xs → HasDistinctKeys ys
  HasDistinctKeys-perm Permᴰ.nil h = h
  HasDistinctKeys-perm (Permᴰ.cons {l₂ = l} e p) h =
      (subst (λ r. All (λ s. ¬ SameKey r s) l) e (All-perm _ p h.0), HasDistinctKeys-perm p h.1)
  HasDistinctKeys-perm (Permᴰ.swap {l = l} e e') h = (
    (
      λ k. h.0.0 (subst₂ SameKey (sym e) (sym e') (k.1, k.0)),
      subst (λ r. All (λ s. ¬ SameKey r s) l) e' h.1.0,
    ),
    (subst (λ r. All (λ s. ¬ SameKey r s) l) e h.0.1, h.1.1),
  )
  HasDistinctKeys-perm (Permᴰ.trans p q) h = HasDistinctKeys-perm q (HasDistinctKeys-perm p h)

  module _ (le_total : (a b : A) → (le a b || le b a) ≡ true)
      (le_trans : (a b c : A) → le a b ≡ true → le b c ≡ true → le a c ≡ true) where
    -- Sorting forgets the order of a list whose keys differ.
    pub sorted-eq_of_perm :
        {xs ys : List A} → Permᴰ xs ys → HasDistinctKeys xs → sorted le xs ≡ sorted le ys
    unfolding sorted
    sorted-eq_of_perm Permᴰ.nil h = refl
    sorted-eq_of_perm (Permᴰ.cons e p) h = ap₂ (insert le) e (sorted-eq_of_perm p h.1)
    sorted-eq_of_perm (Permᴰ.swap {l = l} e e') h =
        insert_comm le le_total le_trans _ _ (sorted le l) h.0.0 ∙ cc
    sorted-eq_of_perm (Permᴰ.trans p q) h =
        sorted-eq_of_perm p h ∙ sorted-eq_of_perm q (HasDistinctKeys-perm p h)
