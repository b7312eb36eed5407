-- ===== src/Llm/Structured/Health.antt =====
-- What a structured request does to the breakers.
use auto_apply.Common.{ℕ, String, ◌≡◌, refl, Bool, true, false, [], ◌∷◌, Bool-cases, inl, inr}
use auto_apply.Common.Exec.{Exec, Outcome, ok, err, settle}
use auto_apply.Llm.Breaker.{Table}
use auto_apply.Llm.Breaker.Edges.{Follows, Follows-refl, Follows-trans}
use auto_apply.Llm.Gate.{handle_breakers}
use auto_apply.Llm.Gate.Laws.{Held, handle_breakers-Follows, handle_breakers-Held}
use auto_apply.Llm.Gate.Sound.{IsSound, handle_breakers-IsSound}
use auto_apply.Llm.Registry.{is_registered}
use auto_apply.Llm.Store.{ProviderRow, World, rollback}
use auto_apply.Llm.Router.Types.{Env, Request, RouterError, Progress, note}
use auto_apply.Llm.Router.Resolve.{Chain, resolve_chain}
use auto_apply.Llm.Router.Attempt.{Key, usable, unreadable, fatal, read_key, record_failure}
use auto_apply.Llm.Router.Route.{nothing_yet}
use auto_apply.Llm.Router.Results.{exhaust-breakers}
use auto_apply.Common.Exec.{pure, continue}
use auto_apply.Llm.Structured.{
  Shape, Reply, valid, gave_up, structured_with_key, structured_after_gate, structured_turn,
  StructuredResult, produced, used_up, structured_chain, close_structured, value_or_raise,
  generate_structured,
}
use auto_apply.Llm.Structured.Exchange.{converse-Exchanged, Exchanged-Follows, Exchanged-IsSound}

module _ (env : Env) (shape : Shape) (rq : Request) (now max_repairs : ℕ) (name : String)
    (row : ProviderRow) where
  keyed-Follows :
      (trial : Bool) (k : Key) (w : World)
      → Follows now rq.user_id w.breakers
          (structured_with_key env shape rq now max_repairs name row trial k w).1.breakers
  unfolding structured_with_key record_failure
  keyed-Follows trial (usable key) w =
      Exchanged-Follows env shape rq now max_repairs name row trial w.breakers _ (
        converse-Exchanged env shape rq now max_repairs name row trial key max_repairs 0 rq.prompt
          w)
  keyed-Follows trial unreadable w = Follows-refl w.breakers
  keyed-Follows trial fatal w = Follows-refl w.breakers

  keyed-IsSound :
      (trial : Bool) (k : Key) (w : World)
      → Held trial (w.breakers rq.user_id name)
      → IsSound w.breakers
      → IsSound (structured_with_key env shape rq now max_repairs name row trial k w).1.breakers
  unfolding structured_with_key record_failure
  keyed-IsSound trial (usable key) w h s =
      Exchanged-IsSound env shape rq now max_repairs name row trial w.breakers _
        (converse-Exchanged env shape rq now max_repairs name row trial key max_repairs 0 rq.prompt
          w)
        h s
  keyed-IsSound trial unreadable w h s = s
  keyed-IsSound trial fatal w h s = s

  gated-Follows :
      (g : Bool × Bool) (w : World)
      → Follows now rq.user_id w.breakers
          (structured_after_gate env shape rq now max_repairs name row g w).1.breakers
  unfolding structured_after_gate
  gated-Follows (false, trial) w = Follows-refl w.breakers
  gated-Follows (true, trial) w = keyed-Follows trial (read_key env row.api_key_encrypted) w

  gated-IsSound :
      (g : Bool × Bool) (w : World)
      → (g.0 ≡ true → Held g.1 (w.breakers rq.user_id name))
      → IsSound w.breakers
      → IsSound (structured_after_gate env shape rq now max_repairs name row g w).1.breakers
  unfolding structured_after_gate
  gated-IsSound (false, trial) w h s = s
  gated-IsSound (true, trial) w h s =
      keyed-IsSound trial (read_key env row.api_key_encrypted) w (h refl) s

  structured_turn-Follows :
      (w : World)
      → Follows now rq.user_id w.breakers
          (structured_turn env shape rq now max_repairs name row w).1.breakers
  unfolding structured_turn
  structured_turn-Follows w = elim (Bool-cases (is_registered name)) [
    | inl e ↦ rw e (
        Follows-trans (handle_breakers-Follows w.breakers name) (
          gated-Follows (handle_breakers w.breakers rq.user_id name now).0
            (record w { breakers = (handle_breakers w.breakers rq.user_id name now).1 })))
    | inr e ↦ rw e (Follows-refl w.breakers)
  ]

  structured_turn-IsSound :
      (w : World)
      → IsSound w.breakers
      → IsSound (structured_turn env shape rq now max_repairs name row w).1.breakers
  unfolding structured_turn
  structured_turn-IsSound w s = elim (Bool-cases (is_registered name)) [
    | inl e ↦ rw e (
        gated-IsSound (handle_breakers w.breakers rq.user_id name now).0
          (record w { breakers = (handle_breakers w.breakers rq.user_id name now).1 })
          (handle_breakers-Held w.breakers rq.user_id name now)
          (handle_breakers-IsSound w.breakers rq.user_id name now s))
    | inr e ↦ rw e s
  ]

module _ (env : Env) (shape : Shape) (rq : Request) (now max_repairs : ℕ) where
  abbrev proceed : Chain → Progress → String → Reply → Exec World RouterError StructuredResult
  proceed rest p name reply = elim reply [
    | valid v ↦ pure (produced v)
    | gave_up called a ↦ structured_chain env shape rq now max_repairs rest (note name called a p)
  ]

  module _ (P : World → World → Type 0) (trans : (a b c : World) → P a b → P b c → P a c)
      (rfl : (a : World) → P a a)
      (turn : (name : String) (row : ProviderRow) (w : World)
        → P w (structured_turn env shape rq now max_repairs name row w).1) where
    -- A relation that every turn keeps is kept by the loop.
    pub structured_chain_induction :
        (chain : Chain) (p : Progress) (w : World)
        → P w (structured_chain env shape rq now max_repairs chain p w).1
    unfolding structured_chain
    structured_chain_induction [] p w = rfl w
    structured_chain_induction ((name, row) ∷ rest) p w =
        trans w (structured_turn env shape rq now max_repairs name row w).1 _ (turn name row w) (
          go (structured_turn env shape rq now max_repairs name row w).0
            (structured_turn env shape rq now max_repairs name row w).1
            (λ q. structured_chain_induction rest q))
      where
        go :
            (o : Outcome RouterError Reply) (w' : World)
            → ((q : Progress) (v : World)
                → P v (structured_chain env shape rq now max_repairs rest q v).1)
            → P w' (continue o (proceed rest p name) w').1
        go (ok (valid v)) w' ih = rfl w'
        go (ok (gave_up called a)) w' ih = ih (note name called a p) w'
        go (err e) w' ih = rfl w'

  module _ (w : World) where
    abbrev structured_end : Outcome RouterError StructuredResult × World
    structured_end =
        structured_chain env shape rq now max_repairs (resolve_chain w rq) nothing_yet w

    -- What holds of the breakers at the start and at the end of the loop holds of them at the end
    -- of the request.
    end_induction :
        (P : Table → Type 0) (o : Outcome RouterError StructuredResult) (w' : World)
        → P w.breakers
        → P w'.breakers
        → P
            (continue
              (settle rollback w (continue o (close_structured env shape rq now max_repairs) w')).0
              (value_or_raise env shape rq now max_repairs)
              (settle rollback w
                (continue o (close_structured env shape rq now max_repairs) w')).1).1.breakers
    end_induction P (ok (produced v)) w' h h' = h'
    end_induction P (ok (used_up p)) w' h h' = rw (exhaust-breakers rq p w') h'
    end_induction P (err e) w' h h' = h

    -- A structured request moves the user's breakers only along the edges of the state machine,
    -- and no other user's breaker at all.
    pub generate_structured-Follows :
        Follows now rq.user_id w.breakers
          (generate_structured env shape rq now max_repairs w).1.breakers
    unfolding generate_structured
    generate_structured-Follows =
        end_induction (Follows now rq.user_id w.breakers) structured_end.0 structured_end.1
          (Follows-refl w.breakers)
          (structured_chain_induction (λ a b. Follows now rq.user_id a.breakers b.breakers)
            (λ a b c. Follows-trans) (λ a. Follows-refl a.breakers)
            (structured_turn-Follows env shape rq now max_repairs) (resolve_chain w rq) nothing_yet
            w)

    -- A structured request keeps the breakers sound: a closed circuit is below the threshold, and
    -- one that is not closed has a time at which it is tried again.
    pub generate_structured-IsSound :
        IsSound w.breakers → IsSound (generate_structured env shape rq now max_repairs w).1.breakers
    unfolding generate_structured
    generate_structured-IsSound s = end_induction IsSound structured_end.0 structured_end.1 s (
        structured_chain_induction (λ a b. IsSound a.breakers → IsSound b.breakers)
          (λ a b c f g x. g (f x)) (λ a x. x) (structured_turn-IsSound env shape rq now max_repairs)
          (resolve_chain w rq) nothing_yet w s)
