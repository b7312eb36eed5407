-- ===== src/Llm/Router/Order.antt =====
-- The resolved chain: which rows are in it, and in which order.
use mathlib.Core.List.{Perm}
use auto_apply.Common.{
  ℕ, zero, suc, ◌+◌, ◌≤◌, ◌<◌, ◌⊎◌, ap, leb, if◌then◌else◌, String, ◌≡◌, refl, sym, ◌∙◌, Bool, true,
  false, some, List, [], ◌∷◌, arith, one_of, Bool-cases, inl, inr, All, keep, find_first, str_eq,
  str_eq_refl, eq_iff, ◌&&◌, ◌==◌, Option-cases, subst,
}
use auto_apply.Common.Sort.{IsSorted, sort_by-IsSorted, sort_by-perm, All-sort_by}
use auto_apply.Json.{ℤ, pos, neg}
use auto_apply.Llm.Store.{ProviderRow, World, pair_leb, list_active_providers}
use auto_apply.Llm.Router.Types.{Request}
use auto_apply.Llm.Router.Resolve.{
  chain_names, best_by_name, present, chain_leb, resolve_chain, order_index,
}

pair_leb_total :
    (a : ℤ) (x : ℕ) (b : ℤ) (y : ℕ) → pair_leb a x b y ≡ false → pair_leb b y a x ≡ true
pair_leb_total (pos a) x (pos b) y h = ground arith
pair_leb_total (pos a) x (neg b) y h = ground arith
pair_leb_total (neg a) x (pos b) y h = ground arith
pair_leb_total (neg a) x (neg b) y h = ground arith

pair_leb_trans :
    (a : ℤ) (x : ℕ) (b : ℤ) (y : ℕ) (c : ℤ) (z : ℕ)
    → pair_leb a x b y ≡ true
    → pair_leb b y c z ≡ true
    → pair_leb a x c z ≡ true
pair_leb_trans (pos a) x (pos b) y (pos c) z h k = ground arith
pair_leb_trans (neg a) x (neg b) y (neg c) z h k = ground arith
pair_leb_trans a x b y c z h k = ground arith

-- less than
abbrev pub Below : ℤ → ℤ → Type 0
Below (pos a) (pos b) = a < b
Below (pos a) (neg b) = false ≡ true
Below (neg a) (pos b) = Unit
Below (neg a) (neg b) = b < a

pair_leb-Below :
    (a : ℤ) (x : ℕ) (b : ℤ) (y : ℕ) → pair_leb a x b y ≡ true → Below a b ⊎ ((a ≡ b) × (x ≤ y))
pair_leb-Below (pos a) x (pos b) y h = elim (Bool-cases (leb b a)) [
  | inl e ↦
      let same : a ≡ b = ground arith in let rest : x ≤ y = ground arith in inr (ap pos same, rest)
  | inr e ↦ inl (ground arith)
]
pair_leb-Below (pos a) x (neg b) y h = absurd (cc)
pair_leb-Below (neg a) x (pos b) y h = inl tt
pair_leb-Below (neg a) x (neg b) y h = elim (Bool-cases (leb a b)) [
  | inl e ↦
      let same : a ≡ b = ground arith in let rest : x ≤ y = ground arith in inr (ap neg same, rest)
  | inr e ↦ inl (ground arith)
]

-- the last place of a name in a list
abbrev pub LastAt : List String → String → ℕ → Type 0
LastAt [] n i = false ≡ true
LastAt (m ∷ ns) n zero = (m ≡ n) × (one_of n ns ≡ false)
LastAt (m ∷ ns) n (suc i) = LastAt ns n i

str_eq_comm_false : (n m : String) → str_eq n m ≡ false → str_eq m n ≡ false
str_eq_comm_false n m h = elim (Bool-cases (str_eq m n)) [
  | inl a ↦
      let same : str_eq n m ≡ true =
        (subst (λ x. str_eq x m ≡ true) ((eq_iff m n).0 a) (str_eq_refl m)) in
      absurd (cc)
  | inr a ↦ a
]

order_index-absent :
    (n : String) (ns : List String) (k found : ℕ)
    → one_of n ns ≡ false
    → order_index ns k found n ≡ found
unfolding order_index
order_index-absent n [] k found h = refl
order_index-absent n (m ∷ ns) k found h =
    let differs = str_eq_comm_false n m (ground arith) in
    let absent : one_of n ns ≡ false = ground arith in
    rw differs (order_index-absent n ns (k + 1) found absent)

order_index-LastAt :
    (n : String) (ns : List String) (k found : ℕ)
    → one_of n ns ≡ true
    → (i : ℕ) × (order_index ns k found n ≡ k + i) × LastAt ns n i
unfolding order_index
order_index-LastAt n [] k found h = absurd (cc)
order_index-LastAt n (m ∷ ns) k found h = elim (Bool-cases (one_of n ns)) [
  | inl e ↦
      let (i, p, q) = order_index-LastAt n ns (k + 1) (if str_eq m n then k else found) e in
      (suc i, omega arith, q)
  | inr e ↦
      let same : str_eq n m ≡ true = ground arith in
      let path = sym ((eq_iff n m).0 same) in
      let here : str_eq m n ≡ true = (subst (λ x. str_eq x n ≡ true) (sym path) (str_eq_refl n)) in
      let at_k : order_index ns (k + 1) (if str_eq m n then k else found) n ≡ k =
        order_index-absent n ns (k + 1) (if str_eq m n then k else found) e ∙ rw here in
      (0, at_k ∙ omega arith, (path, e))
]

-- One entry comes before another: by priority, and where these are equal, by the last place of its
-- name among the names.
abbrev pub Precedes : List String → String × ProviderRow → String × ProviderRow → Type 0
Precedes ns (a, r) (b, s) =
    Below r.priority s.priority
    ⊎ ((r.priority ≡ s.priority) × ((i : ℕ) × (j : ℕ) × LastAt ns a i × LastAt ns b j × (i ≤ j)))

-- each element is related to all that follow it
abbrev pub InOrder : {A : Type 0} → (A → A → Type 0) → List A → Type 0
InOrder R [] = Unit
InOrder R (x ∷ l) = All (R x) l × InOrder R l

-- Every entry of the chain is the user's own active row of a name of the chain, and the best
-- placed one of that name.
abbrev pub IsCandidate : World → Request → String × ProviderRow → Type 0
IsCandidate w rq (name, row) =
    (one_of name (chain_names w rq) ≡ true)
    × (row.name ≡ name)
    × (row.user_id ≡ rq.user_id)
    × (row.is_active ≡ true)
    × (best_by_name name (list_active_providers w rq.user_id) ≡ some row)

keep-All {ℓ} : {A : Type ℓ} (p : A → Bool) (l : List A) → All (λ x. p x ≡ true) (keep p l)
keep-All p [] = tt
keep-All p (x ∷ l) = elim (Bool-cases (p x)) [
  | inl e ↦ rw e (e, keep-All p l)
  | inr e ↦ rw e (keep-All p l)
]

find_first-All {ℓ κ} :
    {A : Type ℓ} (P : A → Type κ) (p : A → Bool) (l : List A) (x : A)
    → find_first p l ≡ some x
    → All P l
    → (p x ≡ true) × P x
find_first-All P p [] x e h = cc
find_first-All P p (y ∷ l) x e (q, h) = elim (Bool-cases (p y)) [
  | inl t ↦ let same : y ≡ x = ground arith in (subst (λ z. p z ≡ true) same t, subst P same q)
  | inr t ↦ find_first-All P p l x (rw t at e) h
]

-- what `WHERE user_id = … AND is_active` says of a row
abbrev Owned : ℕ → ProviderRow → Type 0
Owned u r = (r.user_id ≡ u) × (r.is_active ≡ true)

Owned-of_test :
    (u : ℕ) (rows : List ProviderRow)
    → All (λ r. (r.user_id == u && r.is_active) ≡ true) rows
    → All (Owned u) rows
Owned-of_test u [] h = tt
Owned-of_test u (r ∷ rows) (p, h) = (ground arith, Owned-of_test u rows h)

list_active_providers-All : (w : World) (u : ℕ) → All (Owned u) (list_active_providers w u)
unfolding list_active_providers
list_active_providers-All w u =
    All-sort_by _ (Owned u) (keep (λ r. r.user_id == u && r.is_active) w.providers)
      (Owned-of_test u _ (keep-All (λ r. r.user_id == u && r.is_active) w.providers))

one_of-cons : (n m : String) (ns : List String) → one_of n ns ≡ true → one_of n (m ∷ ns) ≡ true
one_of-cons n m ns h = ground arith

All-one_of_cons :
    (m : String) (ns l : List String)
    → All (λ n. one_of n ns ≡ true) l
    → All (λ n. one_of n (m ∷ ns) ≡ true) l
All-one_of_cons m ns [] h = tt
All-one_of_cons m ns (n ∷ l) (p, h) = (one_of-cons n m ns p, All-one_of_cons m ns l h)

one_of_self : (ns : List String) → All (λ n. one_of n ns ≡ true) ns
one_of_self [] = tt
one_of_self (n ∷ ns) = (ground (arith, str_eq_refl n), All-one_of_cons n ns ns (one_of_self ns))

module _ (w : World) (rq : Request) where
  abbrev rows : List ProviderRow
  rows = list_active_providers w rq.user_id

  present-All :
      (ns : List String)
      → All (λ n. one_of n (chain_names w rq) ≡ true) ns
      → All (IsCandidate w rq) (present ns rows)
  unfolding present
  present-All [] h = tt
  present-All (n ∷ ns) (listed, h) = elim (Option-cases (best_by_name n rows)) [
    | inl e ↦ rw (e, present) (present-All ns h)
    | inr (r, e) ↦
        let (named, owned) =
          find_first-All (Owned rq.user_id) (λ s. str_eq s.name n) rows r e
            (list_active_providers-All w rq.user_id) in
        rw (e, present) ((listed, (eq_iff r.name n).0 named, owned.0, owned.1, e), present-All ns h)
  ]

  pub resolve_chain-IsCandidate : All (IsCandidate w rq) (resolve_chain w rq)
  unfolding resolve_chain
  resolve_chain-IsCandidate =
      All-sort_by (chain_leb (chain_names w rq)) (IsCandidate w rq)
        (present (chain_names w rq) rows)
        (present-All (chain_names w rq) (one_of_self (chain_names w rq)))

  chain_leb_total :
      (ns : List String) (x y : String × ProviderRow)
      → chain_leb ns x y ≡ false
      → chain_leb ns y x ≡ true
  chain_leb_total ns (a, r) (b, s) h = pair_leb_total r.priority _ s.priority _ h

  chain_leb_trans :
      (ns : List String) (x y z : String × ProviderRow)
      → chain_leb ns x y ≡ true
      → chain_leb ns y z ≡ true
      → chain_leb ns x z ≡ true
  chain_leb_trans ns (a, r) (b, s) (c, q) h k =
      pair_leb_trans r.priority _ s.priority _ q.priority _ h k

  abbrev Listed : String × ProviderRow → Type 0
  Listed (name, row) = one_of name (chain_names w rq) ≡ true

  chain_leb-Precedes :
      (x y : String × ProviderRow)
      → Listed x
      → Listed y
      → chain_leb (chain_names w rq) x y ≡ true
      → Precedes (chain_names w rq) x y
  chain_leb-Precedes (a, r) (b, s) la lb h =
      let ns = chain_names w rq in
      let (i, ei, pi) = order_index-LastAt a ns 0 0 la in
      let (j, ej, pj) = order_index-LastAt b ns 0 0 lb in
      elim (pair_leb-Below r.priority (order_index ns 0 0 a) s.priority (order_index ns 0 0 b) h) [
        | inl lower ↦ inl lower
        | inr (same, le) ↦ inr (same, (i, j, pi, pj, omega arith))
      ]

  Precedes-All :
      (x : String × ProviderRow) (l : List (String × ProviderRow))
      → Listed x
      → All (IsCandidate w rq) l
      → All (λ y. chain_leb (chain_names w rq) x y ≡ true) l
      → All (Precedes (chain_names w rq) x) l
  Precedes-All x [] lx cs h = tt
  Precedes-All x (y ∷ l) lx (c, cs) (p, h) =
      (chain_leb-Precedes x y lx c.0 p, Precedes-All x l lx cs h)

  IsSorted-InOrder :
      (l : List (String × ProviderRow))
      → All (IsCandidate w rq) l
      → IsSorted (chain_leb (chain_names w rq)) l
      → InOrder (Precedes (chain_names w rq)) l
  IsSorted-InOrder [] cs h = tt
  IsSorted-InOrder (x ∷ l) (c, cs) (p, h) = (Precedes-All x l c.0 cs p, IsSorted-InOrder l cs h)

  -- Each entry of the chain comes before all that follow it: its priority number is lower, or it is
  -- equal and the last place of its name among the names is not later. The chain is a rearrangement
  -- of the names that have a row: none is lost and none is added.
  pub resolve_chain-InOrder :
      InOrder (Precedes (chain_names w rq)) (resolve_chain w rq)
      × Perm (resolve_chain w rq) (present (chain_names w rq) rows)
  unfolding resolve_chain
  resolve_chain-InOrder =
      let ns = chain_names w rq in
      let sorted =
        sort_by-IsSorted (chain_leb ns) (chain_leb_total ns) (chain_leb_trans ns)
          (present ns rows) in
      (
        IsSorted-InOrder (resolve_chain w rq) resolve_chain-IsCandidate sorted,
        sort_by-perm (chain_leb ns) (present ns rows),
      )
