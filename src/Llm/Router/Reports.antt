-- ===== src/Llm/Router/Reports.antt =====
-- What `route_llm_request` leaves behind when it raises, and whose answer it returns.
use auto_apply.Common.{
  ℕ, String, ◌≡◌, true, some, List, [], ◌∷◌, ◌++◌, arith, ◌∙◌, ap, one_of, All, subst,
}
use auto_apply.Common.Exec.{Outcome, ok, err}
use auto_apply.Llm.Store.{ProviderRow, Call, World}
use auto_apply.Llm.Router.Types.{
  Env, Request, LlmResponse, Attempt, RouterError, returned, exhausted, LoopResult,
}
use auto_apply.Llm.Router.Resolve.{Chain, resolve_chain}
use auto_apply.Llm.Router.Exhaust.{valid_pipeline_steps}
use auto_apply.Llm.Router.Route.{route_llm_request, nothing_yet}
use auto_apply.Llm.Router.Loop.{LoopReports, try_chain-LoopReports, called_names}
use auto_apply.Llm.Router.Order.{IsCandidate, resolve_chain-IsCandidate}
use auto_apply.Llm.Router.Results.{finish, loop_end, route-eq-finish}

-- A job and a step of the pipeline are given.
abbrev pub Resumable : Request → ℕ → String → Type 0
Resumable rq job step =
    (rq.job_id ≡ some job) × (rq.step ≡ some step) × (one_of step valid_pipeline_steps ≡ true)

All-after :
    (P : String × ProviderRow → Type 0) (l : Chain) (x : String × ProviderRow) (r : Chain)
    → All P (l ++ x ∷ r)
    → P x
All-after P [] x r h = h.0
All-after P (y ∷ l) x r h = All-after P l x r h.1

module _ (env : Env) (rq : Request) (now : ℕ) (w : World) (r : LlmResponse) where
  -- Where an answer comes from: a candidate of the chain, whose call was the last one made.
  abbrev pub AnsweredBy : List Call → Type 0
  AnsweredBy after =
      (row : ProviderRow) × (heard : List String) × IsCandidate w rq (r.provider, row)
      × (called_names after ≡ called_names w.calls ++ (heard ++ r.provider ∷ []))

  finish_answered :
      (o : Outcome RouterError LoopResult) (w' : World)
      → LoopReports (resolve_chain w rq) nothing_yet w.calls w'.calls o
      → (finish rq w o w').0 ≡ ok r
      → AnsweredBy (finish rq w o w').1.calls
  finish_answered (ok (returned q)) w' (tried, row, untried, heard, x, y, z) e =
      let same : q ≡ r = ground arith in
      (
        row,
        heard,
        All-after (IsCandidate w rq) tried (r.provider, row) untried
            (subst (All (IsCandidate w rq))
              (x ∙ ap (λ (k : LlmResponse). tried ++ (k.provider, row) ∷ untried) same)
              (resolve_chain-IsCandidate w rq)),
        y ∙ ap (λ (k : LlmResponse). called_names w.calls ++ (heard ++ k.provider ∷ [])) same,
      )
  finish_answered (ok (exhausted p)) w' h e = cc
  finish_answered (err x) w' h e = cc

  -- An answer comes from an active row of the user that the chain names, and the provider that
  -- gave it is the last that was called.
  pub route_llm_request_answered :
      (route_llm_request env rq now w).0 ≡ ok r
      → AnsweredBy (route_llm_request env rq now w).1.calls
  route_llm_request_answered e = rw (route-eq-finish env rq now w) (
      finish_answered (loop_end env rq now w).0 (loop_end env rq now w).1
        (try_chain-LoopReports env rq now (resolve_chain w rq) nothing_yet w)
        (rw (route-eq-finish env rq now w) at e))
