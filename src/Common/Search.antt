-- ===== src/Common/Search.antt =====
-- Substrings of lists of code points.
use Prim.Native.Nat.{ℕ, zero, suc, ◌+◌, ◌≤◌}
use mathlib.Core.Path.{◌≡◌, refl}
use mathlib.Core.Bool.{Bool, true, false, ◌&&◌, ◌||◌}
use mathlib.Core.List.{List, [], ◌∷◌}
use mathlib.Core.Logic.{inl, inr, ◌⊎◌}
use native.Mathlib.Omega.{arith}
use auto_apply.Common.Tests.{◌==◌, Bool-cases}
use auto_apply.Common.Lists.{length, take, drop}

abbrev pub starts_with : List ℕ → List ℕ → Bool
starts_with [] s = true
starts_with (c ∷ p) [] = false
starts_with (c ∷ p) (d ∷ s) = c == d && starts_with p s

-- `needle in text`
abbrev pub contains : List ℕ → List ℕ → Bool
contains p [] = starts_with p []
contains p (c ∷ s) = starts_with p (c ∷ s) || contains p s

pub starts_with-take :
    (p s : List ℕ) (n : ℕ) → starts_with p s ≡ true → length p ≤ n → starts_with p (take n s) ≡ true
starts_with-take [] s n h le = refl
starts_with-take (c ∷ p) s zero h le = absurd (omega arith)
starts_with-take (c ∷ p) [] (suc n) h le = h
starts_with-take (c ∷ p) (d ∷ s) (suc n) h le =
    ground (arith, λ (k : starts_with p s ≡ true). starts_with-take p s n k (omega arith))

pub starts_with_of_take :
    (p s : List ℕ) (n : ℕ) → starts_with p (take n s) ≡ true → starts_with p s ≡ true
starts_with_of_take [] s n h = refl
starts_with_of_take (c ∷ p) s zero h = cc
starts_with_of_take (c ∷ p) [] (suc n) h = h
starts_with_of_take (c ∷ p) (d ∷ s) (suc n) h = ground (arith, starts_with_of_take p s n)

contains_of_start :
    (p : List ℕ) (d : ℕ) (s : List ℕ) → starts_with p (d ∷ s) ≡ true → contains p (d ∷ s) ≡ true
contains_of_start p d s h = ground (arith)

pub contains_of_take : (p s : List ℕ) (n : ℕ) → contains p (take n s) ≡ true → contains p s ≡ true
contains_of_take p [] zero h = h
contains_of_take p [] (suc n) h = h
contains_of_take [] (d ∷ s) zero h = refl
contains_of_take (c ∷ p) (d ∷ s) zero h = cc
contains_of_take p (d ∷ s) (suc n) h =
    ground (arith, starts_with_of_take p (d ∷ s) (suc n), contains_of_take p s n)

pub contains_of_drop : (p s : List ℕ) (n : ℕ) → contains p (drop n s) ≡ true → contains p s ≡ true
contains_of_drop p s zero h = h
contains_of_drop p [] (suc n) h = h
contains_of_drop p (d ∷ s) (suc n) h = ground (arith, contains_of_drop p s n)

-- A short needle stands in the head of a text, or in what is left behind a shorter head.
pub contains-take :
    (p s : List ℕ) (k m n : ℕ)
    → length p ≤ suc m
    → k + m ≤ n
    → contains p s ≡ true
    → (contains p (take n s) ≡ true) ⊎ (contains p (drop k s) ≡ true)
contains-take p s zero m n le ln h = inr h
contains-take p [] (suc k) m n le ln h = inr h
contains-take p (d ∷ s) (suc k) m zero le ln h = absurd (omega arith)
contains-take p (d ∷ s) (suc k) m (suc n) le ln h = elim (Bool-cases (starts_with p (d ∷ s))) [
  | inl a ↦ inl (
      ground (
        arith,
        contains_of_start p d (take n s),
        starts_with-take p (d ∷ s) (suc n) a (omega arith),
      ))
  | inr a ↦ elim (contains-take p s k m n le (omega arith) (ground (arith))) [
    | inl b ↦ inl (ground (arith))
    | inr b ↦ inr b
  ]
]
