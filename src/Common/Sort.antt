-- ===== src/Common/Sort.antt =====
-- A stable sort by a Boolean order: SQL's `ORDER BY` and Python's `list.sort`.
use mathlib.Core.Path.{◌≡◌}
use mathlib.Core.Bool.{Bool, true, false}
use mathlib.Core.List.{List, [], ◌∷◌, Perm}
use mathlib.Core.List.Perm
use auto_apply.Common.Tests.{if◌then◌else◌, Bool-cases}
use auto_apply.Common.Lists.{All}
use mathlib.Core.Logic.{inl, inr}

module _ {ℓ} {A : Type ℓ} (le : A → A → Bool) where
  -- before the first element that is not smaller
  abbrev pub insert_sorted : A → List A → List A
  insert_sorted x [] = x ∷ []
  insert_sorted x (y ∷ ys) = if le x y then x ∷ y ∷ ys else y ∷ insert_sorted x ys

  abbrev pub sort_by : List A → List A
  sort_by [] = []
  sort_by (x ∷ xs) = insert_sorted x (sort_by xs)

  -- each element is related to all that follow it
  abbrev pub IsSorted : List A → Type ℓ
  IsSorted [] = Unit
  IsSorted (x ∷ xs) = All (λ y. le x y ≡ true) xs × IsSorted xs

  pub All-insert_sorted {κ} :
      (P : A → Type κ) (x : A) (l : List A) → P x → All P l → All P (insert_sorted x l)
  All-insert_sorted P x [] p h = (p, tt)
  All-insert_sorted P x (y ∷ l) p (q, h) = elim (Bool-cases (le x y)) [
    | inl e ↦ rw e (p, (q, h))
    | inr e ↦ rw e (q, All-insert_sorted P x l p h)
  ]

  -- What holds of every element holds of every element of the sorted list.
  pub All-sort_by {κ} : (P : A → Type κ) (l : List A) → All P l → All P (sort_by l)
  All-sort_by P [] h = tt
  All-sort_by P (x ∷ l) (p, h) = All-insert_sorted P x (sort_by l) p (All-sort_by P l h)

  insert_sorted-perm : (x : A) (l : List A) → Perm (insert_sorted x l) (x ∷ l)
  insert_sorted-perm x [] = Perm.refl _
  insert_sorted-perm x (y ∷ l) = elim (Bool-cases (le x y)) [
    | inl e ↦ rw e (Perm.refl _)
    | inr e ↦ rw e (Perm.trans (Perm.cons y (insert_sorted-perm x l)) (Perm.swap x y l))
  ]

  pub sort_by-perm : (l : List A) → Perm (sort_by l) l
  sort_by-perm [] = Perm.refl _
  sort_by-perm (x ∷ l) =
      Perm.trans (insert_sorted-perm x (sort_by l)) (Perm.cons x (sort_by-perm l))

  module _ (total : (x y : A) → le x y ≡ false → le y x ≡ true)
      (trans : (x y z : A) → le x y ≡ true → le y z ≡ true → le x z ≡ true) where
    below-All :
        (x y : A) (l : List A)
        → le x y ≡ true
        → All (λ z. le y z ≡ true) l
        → All (λ z. le x z ≡ true) l
    below-All x y [] e h = tt
    below-All x y (z ∷ l) e (p, h) = (trans x y z e p, below-All x y l e h)

    insert_sorted-IsSorted : (x : A) (l : List A) → IsSorted l → IsSorted (insert_sorted x l)
    insert_sorted-IsSorted x [] s = (tt, tt)
    insert_sorted-IsSorted x (y ∷ l) (h, s) = elim (Bool-cases (le x y)) [
      | inl e ↦ rw e ((e, below-All x y l e h), (h, s))
      | inr e ↦
          rw e (
            All-insert_sorted (λ z. le y z ≡ true) x l (total x y e) h,
            insert_sorted-IsSorted x l s,
          )
    ]

    pub sort_by-IsSorted : (l : List A) → IsSorted (sort_by l)
    sort_by-IsSorted [] = tt
    sort_by-IsSorted (x ∷ l) = insert_sorted-IsSorted x (sort_by l) (sort_by-IsSorted l)
