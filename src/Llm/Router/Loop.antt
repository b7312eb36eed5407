-- ===== src/Llm/Router/Loop.antt =====
-- The loop over the chain: what it reports, and what it does to the breakers.
use auto_apply.Common.{
  ℕ, String, ◌≡◌, Bool, true, false, List, [], ◌∷◌, ◌++◌, arith, map, sym, ◌∙◌, ap, length, ◌≤◌,
}
use mathlib.Core.List.{append_assoc, append-nil}
use auto_apply.Common.Exec.{Exec, Outcome, ok, err, pure, continue}
use auto_apply.Llm.Breaker.Edges.{Follows, Follows-refl, Follows-trans}
use auto_apply.Llm.Gate.Sound.{IsSound}
use auto_apply.Llm.Store.{ProviderRow, Call, World}
use auto_apply.Llm.Router.Types.{
  Env, Request, Attempt, RouterError, Progress, returned, exhausted, LoopResult, note,
  master_key_error,
}
use auto_apply.Llm.Router.Attempt.{Verdict, replied, lost, attempt_provider}
use auto_apply.Llm.Router.Resolve.{Chain}
use auto_apply.Llm.Router.Route.{try_chain}
use auto_apply.Llm.Router.Turn.{attempt_provider-Follows, attempt_provider-IsSound}
use auto_apply.Llm.Router.Calls.{Reports, attempt_provider-Reports}

abbrev pub called_names : List Call → List String
called_names = map (λ c. c.provider)

abbrev pub attempt_names : List Attempt → List String
attempt_names = map (λ a. a.provider)

abbrev pub entry_names : Chain → List String
entry_names = map (λ e. e.0)

-- An exhausted loop has one attempt for each entry of the chain, in its order, and has consumed
-- the providers that it called, in that order. An answer comes from an entry of the chain, and the
-- call of that provider is the last one that was made.
abbrev pub LoopReports :
    Chain → Progress → List Call → List Call → Outcome RouterError LoopResult → Type 0
LoopReports chain p before after (ok (exhausted q)) =
    (heard : List String) × (q.consumed ≡ p.consumed ++ heard)
    × (called_names after ≡ called_names before ++ heard)
    × (attempt_names q.attempts ≡ attempt_names p.attempts ++ entry_names chain)
LoopReports chain p before after (ok (returned r)) =
    (tried : Chain) × (row : ProviderRow) × (untried : Chain) × (heard : List String) × (chain
      ≡ tried ++ (r.provider, row) ∷ untried)
    × (called_names after ≡ called_names before ++ (heard ++ r.provider ∷ []))
    × (length heard ≤ length tried)
LoopReports chain p before after (err e) = e ≡ master_key_error

-- the names behind one more element
map-snoc {ℓ κ} :
    {A : Type ℓ} {B : Type κ} (f : A → B) (l : List A) (x : A) (b : B) (rest : List B)
    → f x ≡ b
    → map f (l ++ x ∷ []) ++ rest ≡ map f l ++ b ∷ rest
map-snoc f [] x b rest h = ap (λ y. y ∷ rest) h
map-snoc f (y ∷ l) x b rest h = ap (◌∷◌ (f y)) (map-snoc f l x b rest h)

module _ (env : Env) (rq : Request) (now : ℕ) where
  abbrev pub resume : Chain → Progress → String → Verdict → Exec World RouterError LoopResult
  resume rest p name v = elim v [
    | replied response ↦ pure (returned response)
    | lost called a ↦ try_chain env rq now rest (note name called a p)
  ]

  module _ (P : World → World → Type 0) (trans : (a b c : World) → P a b → P b c → P a c)
      (rfl : (a : World) → P a a)
      (turn : (name : String) (row : ProviderRow) (w : World)
        → P w (attempt_provider env rq now name row w).1) where
    -- A relation that every turn keeps is kept by the loop.
    pub try_chain_induction :
        (chain : Chain) (p : Progress) (w : World) → P w (try_chain env rq now chain p w).1
    unfolding try_chain
    try_chain_induction [] p w = rfl w
    try_chain_induction ((name, row) ∷ rest) p w =
        trans w (attempt_provider env rq now name row w).1 _ (turn name row w) (
          go (attempt_provider env rq now name row w).0 (attempt_provider env rq now name row w).1
            (λ q. try_chain_induction rest q))
      where
        go :
            (o : Outcome RouterError Verdict) (w' : World)
            → ((q : Progress) (v : World) → P v (try_chain env rq now rest q v).1)
            → P w' (continue o (resume rest p name) w').1
        go (ok (replied r)) w' ih = rfl w'
        go (ok (lost called a)) w' ih = ih (note name called a p) w'
        go (err e) w' ih = rfl w'

  pub try_chain-Follows :
      (chain : Chain) (p : Progress) (w : World)
      → Follows now rq.user_id w.breakers (try_chain env rq now chain p w).1.breakers
  try_chain-Follows =
      try_chain_induction (λ a b. Follows now rq.user_id a.breakers b.breakers)
        (λ a b c. Follows-trans) (λ a. Follows-refl a.breakers)
        (attempt_provider-Follows env rq now)

  pub try_chain-IsSound :
      (chain : Chain) (p : Progress) (w : World)
      → IsSound w.breakers
      → IsSound (try_chain env rq now chain p w).1.breakers
  try_chain-IsSound =
      try_chain_induction (λ a b. IsSound a.breakers → IsSound b.breakers) (λ a b c f g s. g (f s))
        (λ a s. s) (attempt_provider-IsSound env rq now)

  lost-LoopReports :
      (name : String) (row : ProviderRow) (rest : Chain) (p : Progress) (called : Bool)
      (a : Attempt) (before mid after : List Call) (o : Outcome RouterError LoopResult)
      → Reports name before mid (ok (lost called a))
      → LoopReports rest (note name called a p) mid after o
      → LoopReports ((name, row) ∷ rest) p before after o
  lost-LoopReports name row rest p true a before mid after (ok (exhausted q)) (c, e, n, k)
        (heard, x, y, z) =
      (
        name ∷ heard,
        x ∙ append_assoc p.consumed (name ∷ []) heard,
        y
            ∙ ap (λ (l : List Call). called_names l ++ heard) e
            ∙ map-snoc (λ (d : Call). d.provider) before c name heard n,
        z ∙ map-snoc (λ (d : Attempt). d.provider) p.attempts a name (entry_names rest) k,
      )
  lost-LoopReports name row rest p false a before mid after (ok (exhausted q)) (e, k)
        (heard, x, y, z) =
      (
        heard,
        x,
        y ∙ ap (λ (l : List Call). called_names l ++ heard) e,
        z ∙ map-snoc (λ (d : Attempt). d.provider) p.attempts a name (entry_names rest) k,
      )
  lost-LoopReports name row rest p true a before mid after (ok (returned r)) (c, e, n, k)
        (tried, s, untried, heard, x, y, z) =
      (
        (name, row) ∷ tried,
        s,
        untried,
        name ∷ heard,
        ap (◌∷◌ (name, row)) x,
        y
            ∙ ap (λ (l : List Call). called_names l ++ (heard ++ r.provider ∷ [])) e
            ∙ map-snoc (λ (d : Call). d.provider) before c name (heard ++ r.provider ∷ []) n,
        omega arith,
      )
  lost-LoopReports name row rest p false a before mid after (ok (returned r)) (e, k)
        (tried, s, untried, heard, x, y, z) =
      (
        (name, row) ∷ tried,
        s,
        untried,
        heard,
        ap (◌∷◌ (name, row)) x,
        y ∙ ap (λ (l : List Call). called_names l ++ (heard ++ r.provider ∷ [])) e,
        omega arith,
      )
  lost-LoopReports name row rest p called a before mid after (err e) h k = k

  -- What the loop reports of its calls and attempts.
  pub try_chain-LoopReports :
      (chain : Chain) (p : Progress) (w : World)
      → LoopReports chain p w.calls
          (try_chain env rq now chain p w).1.calls
          (try_chain env rq now chain p w).0
  unfolding try_chain
  try_chain-LoopReports [] p w = ([], sym (append-nil _), sym (append-nil _), sym (append-nil _))
  try_chain-LoopReports ((name, row) ∷ rest) p w =
      go (attempt_provider env rq now name row w).0 (attempt_provider env rq now name row w).1
        (attempt_provider-Reports env rq now name row w) (λ q. try_chain-LoopReports rest q)
    where
      go :
          (o : Outcome RouterError Verdict) (w' : World)
          → Reports name w.calls w'.calls o
          → ((q : Progress) (v : World)
              → LoopReports rest q v.calls
                  (try_chain env rq now rest q v).1.calls
                  (try_chain env rq now rest q v).0)
          → LoopReports
              ((name, row) ∷ rest)
              p
              w.calls
              (continue o (resume rest p name) w').1.calls
              (continue o (resume rest p name) w').0
      go (ok (replied r)) w' (c, e, n, k) ih = (
        [],
        row,
        rest,
        [],
        ap (λ n'. (n', row) ∷ rest) (sym k),
        ap called_names e
            ∙ sym (append-nil (called_names (w.calls ++ c ∷ [])))
            ∙ map-snoc (λ (d : Call). d.provider) w.calls c r.provider [] (n ∙ sym k),
        omega arith,
      )
      go (ok (lost called a)) w' h ih =
          lost-LoopReports name row rest p called a w.calls w'.calls _ _ h
            (ih (note name called a p) w')
      go (err e) w' h ih = h.1
