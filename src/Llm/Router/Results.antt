-- ===== src/Llm/Router/Results.antt =====
-- `route_llm_request` as a whole: the breakers, the answer, and the report of an exhausted chain.
use auto_apply.Common.{ℕ, String, ◌≡◌, refl, List, ◌++◌, arith, sym, ◌∙◌, ap}
use auto_apply.Common.Exec.{Outcome, ok, err, continue, settle}
use auto_apply.Llm.Breaker.Edges.{Follows, Follows-refl}
use auto_apply.Llm.Gate.Sound.{IsSound}
use auto_apply.Llm.Store.{World, rollback}
use auto_apply.Llm.Router.Types.{
  Env, Request, LlmResponse, Attempt, RouterError, Progress, returned, exhausted, LoopResult,
  providers_exhausted,
}
use auto_apply.Llm.Router.Resolve.{resolve_chain}
use auto_apply.Llm.Router.Exhaust.{exhaust, error_message}
use auto_apply.Llm.Router.Route.{
  try_chain, close_loop, answer_or_raise, route_llm_request, nothing_yet,
}
use auto_apply.Llm.Router.Loop.{
  LoopReports, try_chain-LoopReports, try_chain-Follows, try_chain-IsSound, called_names,
  attempt_names, entry_names,
}

pub exhaust-breakers :
    (rq : Request) (p : Progress) (w : World) → (exhaust rq p w).breakers ≡ w.breakers
unfolding exhaust
exhaust-breakers rq p w = ground arith

pub exhaust-calls : (rq : Request) (p : Progress) (w : World) → (exhaust rq p w).calls ≡ w.calls
unfolding exhaust
exhaust-calls rq p w = ground arith

-- the world in which `route_llm_request` ends, by what the loop came to
abbrev pub finish :
    Request
    → World
    → Outcome RouterError LoopResult
    → World
    → Outcome RouterError LlmResponse × World
finish rq w (ok (returned r)) w' = (ok r, w')
finish rq w (ok (exhausted p)) w' =
    (err (providers_exhausted (error_message p.consumed) p.attempts p.consumed), exhaust rq p w')
finish rq w (err e) w' = (err e, rollback w w')

module _ (env : Env) (rq : Request) (now : ℕ) (w : World) where
  abbrev pub loop_end : Outcome RouterError LoopResult × World
  loop_end = try_chain env rq now (resolve_chain w rq) nothing_yet w

  pub route-eq-finish : route_llm_request env rq now w ≡ finish rq w loop_end.0 loop_end.1
  unfolding route_llm_request
  route-eq-finish = go loop_end.0 loop_end.1
    where
      go :
          (o : Outcome RouterError LoopResult) (w' : World)
          → continue
              (settle rollback w (continue o (close_loop rq) w')).0
              answer_or_raise
              (settle rollback w (continue o (close_loop rq) w')).1
            ≡ finish rq w o w'
      go (ok (returned r)) w' = refl
      go (ok (exhausted p)) w' = refl
      go (err e) w' = refl

  finish-Follows :
      (o : Outcome RouterError LoopResult) (w' : World)
      → Follows now rq.user_id w.breakers w'.breakers
      → Follows now rq.user_id w.breakers (finish rq w o w').1.breakers
  finish-Follows (ok (returned r)) w' f = f
  finish-Follows (ok (exhausted p)) w' f = rw (exhaust-breakers rq p w') f
  finish-Follows (err e) w' f = Follows-refl w.breakers

  -- Whatever the providers answer, one request moves the user's breakers only along the edges of
  -- the state machine, and no other user's breaker at all.
  pub route_llm_request-Follows :
      Follows now rq.user_id w.breakers (route_llm_request env rq now w).1.breakers
  route_llm_request-Follows = rw route-eq-finish (
      finish-Follows loop_end.0 loop_end.1
        (try_chain-Follows env rq now (resolve_chain w rq) nothing_yet w))

  finish-IsSound :
      (o : Outcome RouterError LoopResult) (w' : World)
      → IsSound w.breakers
      → IsSound w'.breakers
      → IsSound (finish rq w o w').1.breakers
  finish-IsSound (ok (returned r)) w' s s' = s'
  finish-IsSound (ok (exhausted p)) w' s s' = rw (exhaust-breakers rq p w') s'
  finish-IsSound (err e) w' s s' = s

  -- One request keeps the breakers sound: a closed circuit is below the threshold, and one that is
  -- not closed has a time at which it is tried again.
  pub route_llm_request-IsSound :
      IsSound w.breakers → IsSound (route_llm_request env rq now w).1.breakers
  route_llm_request-IsSound s = rw route-eq-finish (
      finish-IsSound loop_end.0 loop_end.1 s
        (try_chain-IsSound env rq now (resolve_chain w rq) nothing_yet w s))

  finish_exhausted :
      (o : Outcome RouterError LoopResult) (w' : World) (m : String) (attempts : List Attempt)
      (consumed : List String)
      → LoopReports (resolve_chain w rq) nothing_yet w.calls w'.calls o
      → (finish rq w o w').0 ≡ err (providers_exhausted m attempts consumed)
      → (attempt_names attempts ≡ entry_names (resolve_chain w rq))
        × (called_names (finish rq w o w').1.calls ≡ called_names w.calls ++ consumed)
        × (m ≡ error_message consumed)
  finish_exhausted (ok (returned r)) w' m l cs h e = cc
  finish_exhausted (ok (exhausted p)) w' m l cs (heard, x, y, z) e =
      let same : p.attempts ≡ l = ground arith in
      let same' : p.consumed ≡ cs = ground arith in
      let message : error_message p.consumed ≡ m = ground arith in
      (
        ap attempt_names (sym same) ∙ z,
        ap called_names (exhaust-calls rq p w')
            ∙ y
            ∙ ap (λ (k : List String). called_names w.calls ++ k) (sym x ∙ same'),
        sym message ∙ ap error_message same',
      )
  finish_exhausted (err x) w' m l cs h e = cc

  -- When every provider has failed, the error lists one attempt for each entry of the chain, in
  -- its order, and the consumed providers are those that were called, in the order of the calls.
  pub route_llm_request_exhausted :
      (m : String) (attempts : List Attempt) (consumed : List String)
      → (route_llm_request env rq now w).0 ≡ err (providers_exhausted m attempts consumed)
      → (attempt_names attempts ≡ entry_names (resolve_chain w rq))
        × (called_names (route_llm_request env rq now w).1.calls ≡ called_names w.calls ++ consumed)
        × (m ≡ error_message consumed)
  route_llm_request_exhausted m attempts consumed e = rw route-eq-finish (
      finish_exhausted loop_end.0 loop_end.1 m attempts consumed
        (try_chain-LoopReports env rq now (resolve_chain w rq) nothing_yet w)
        (rw route-eq-finish at e))
