-- ===== src/Llm/Router/Route.antt =====
-- The loop over the chain, its transaction, and `route_llm_request` itself
-- (backend/app/llm/router.py).
use auto_apply.Common.{ℕ, [], ◌∷◌}
use auto_apply.Common.Exec.{Exec, ◌>>=◌, ◌>>◌, pure, raise, modify, transaction}
use auto_apply.Llm.Store.{World, rollback}
use auto_apply.Llm.Router.Types.{
  Env, Request, LlmResponse, RouterError, Progress, LoopResult, note, providers_exhausted, returned,
  exhausted,
}
use auto_apply.Llm.Router.Resolve.{Chain, resolve_chain}
use auto_apply.Llm.Router.Attempt.{attempt_provider, replied, lost}
use auto_apply.Llm.Router.Exhaust.{error_message, exhaust}

module _ (env : Env) (rq : Request) (now : ℕ) where
  unfoldable pub try_chain : Chain → Progress → Exec World RouterError LoopResult
  try_chain [] p = pure (exhausted p)
  try_chain ((name, row) ∷ rest) p = do
    verdict ← attempt_provider env rq now name row
    elim verdict [
      | replied response ↦ pure (returned response)
      | lost called a ↦ try_chain rest (note name called a p)
    ]

abbrev pub nothing_yet : Progress
nothing_yet = record { consumed = []; attempts = [] }

-- what the transaction writes when the loop ends
abbrev pub close_loop : Request → LoopResult → Exec World RouterError LoopResult
close_loop rq (returned response) = pure (returned response)
close_loop rq (exhausted p) = do modify (exhaust rq p); pure (exhausted p)

unfoldable pub route_transaction : Env → Request → ℕ → Exec World RouterError LoopResult
route_transaction env rq now w =
    (do outcome ← try_chain env rq now (resolve_chain w rq) nothing_yet; close_loop rq outcome) w

-- `raise ProvidersExhaustedError` stands behind the transaction, which has committed.
abbrev pub answer_or_raise : LoopResult → Exec World RouterError LlmResponse
answer_or_raise (returned response) = pure response
answer_or_raise (exhausted p) =
    raise (providers_exhausted (error_message p.consumed) p.attempts p.consumed)

unfoldable pub route_llm_request : Env → Request → ℕ → Exec World RouterError LlmResponse
unfolding route_transaction
route_llm_request env rq now = do
  outcome ← transaction rollback (route_transaction env rq now)
  answer_or_raise outcome
