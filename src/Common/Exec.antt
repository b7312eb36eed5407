-- ===== src/Common/Exec.antt =====
-- Methods that change state and may raise: the state comes back beside the result, also beside an
-- exception. `transaction` is a database block that is rolled back when an exception leaves it.
use mathlib.Core.Bool.{true, false}
use mathlib.Core.Path.{◌≡◌}

pub data Outcome {ℓ} (E : Type ℓ) (A : Type ℓ) : Type ℓ where
  ok : A → Outcome E A
  err : E → Outcome E A

abbrev pub Exec {ℓ} : Type ℓ → Type ℓ → Type ℓ → Type ℓ
Exec S E A = S → Outcome E A × S

module _ {ℓ} {S E A B : Type ℓ} where
  abbrev pub continue : Outcome E A → (A → Exec S E B) → Exec S E B
  continue (ok a) f s = f a s
  continue (err e) f s = (err e, s)

  infixl 5 ◌>>=◌ ◌>>◌
  abbrev pub ◌>>=◌ : Exec S E A → (A → Exec S E B) → Exec S E B
  ◌>>=◌ m f s = let (r, s') = m s in continue r f s'

  abbrev pub ◌>>◌ : Exec S E A → Exec S E B → Exec S E B
  m >> n = m >>= λ _. n

module _ {ℓ} {S E A : Type ℓ} where
  abbrev pub pure : A → Exec S E A
  pure a s = (ok a, s)

  abbrev pub raise : E → Exec S E A
  raise e s = (err e, s)

  abbrev pub gets : (S → A) → Exec S E A
  gets f s = (ok (f s), s)

  -- a step that cannot raise
  abbrev pub run : (S → A × S) → Exec S E A
  run f s = let (a, s') = f s in (ok a, s')

  -- `restore before after` is what the rollback leaves.
  abbrev pub settle : (S → S → S) → S → Outcome E A × S → Outcome E A × S
  settle restore before (ok a, s) = (ok a, s)
  settle restore before (err e, s) = (err e, restore before s)

  abbrev pub transaction : (S → S → S) → Exec S E A → Exec S E A
  transaction restore m s = settle restore s (m s)

module _ {ℓ} {S E : Type ℓ} where
  abbrev pub modify : (S → S) → Exec S E (Unit {ℓ})
  modify f s = (ok tt, f s)

-- A method that returns leaves `Q`, one that raises leaves `X`.
module _ {ℓ κ} {S E A : Type ℓ} where
  abbrev pub Leaves : (A → S → Type κ) → (S → Type κ) → Outcome E A × S → Type κ
  Leaves Q X (ok a, s) = Q a s
  Leaves Q X (err e, s) = X s

  pub weaker-Leaves :
      (Q R : A → S → Type κ) (X Y : S → Type κ) (o : Outcome E A × S)
      → ((a : A) (s : S) → Q a s → R a s)
      → ((s : S) → X s → Y s)
      → Leaves Q X o
      → Leaves R Y o
  weaker-Leaves Q R X Y (ok a, s) f g h = f a s h
  weaker-Leaves Q R X Y (err e, s) f g h = g s h

  -- a transaction that raises leaves what the rollback leaves
  pub transaction-Leaves :
      (Q : A → S → Type κ) (X Y : S → Type κ) (restore : S → S → S) (m : Exec S E A) (s : S)
      → Leaves Q X (m s)
      → ((s' : S) → X s' → Y (restore s s'))
      → Leaves Q Y (transaction restore m s)
  transaction-Leaves Q X Y restore m s h g = go (m s) h
    where
      go : (o : Outcome E A × S) → Leaves Q X o → Leaves Q Y (settle restore s o)
      go (ok a, s') k = k
      go (err e, s') k = g s' k

module _ {ℓ κ} {S E A B : Type ℓ} where
  pub bind-Leaves :
      (Q : A → S → Type κ) (R : B → S → Type κ) (X : S → Type κ) (m : Exec S E A)
      (f : A → Exec S E B) (s : S)
      → Leaves Q X (m s)
      → ((a : A) (s' : S) → Q a s' → Leaves R X (f a s'))
      → Leaves R X ((m >>= f) s)
  bind-Leaves Q R X m f s h k = go (m s) h
    where
      go : (o : Outcome E A × S) → Leaves Q X o → Leaves R X (continue o.0 f o.1)
      go (ok a, s') j = k a s' j
      go (err e, s') j = j

-- The method does not raise, and leaves `Q`.
abbrev pub Returns : {S E A : Type 0} → (A → S → Type 0) → Outcome E A × S → Type 0
Returns Q = Leaves Q (λ _. false ≡ true)
