-- ===== src/Llm/Router/Tests.antt =====
-- Runs of the router on sample worlds.
use auto_apply.Common.{String, ◌≡◌, refl, true, false, none, [], ◌∷◌, inr, map}
use auto_apply.Common.Exec.{ok, err}
use mathlib.Core.List.{Perm}
use auto_apply.Llm.Breaker.{put, get_breaker, ensure_breaker, increment_failure}
use auto_apply.Llm.Breaker.Edges.{Follows}
use auto_apply.Llm.Gate.{handle_breakers, handle_count_failure}
use auto_apply.Llm.Gate.Sound.{IsSound}
use auto_apply.Llm.Registry.{is_registered}
use auto_apply.Llm.Store.{World, list_active_providers}
use auto_apply.Llm.Router.Types.{Attempt, noted, providers_exhausted, LlmResponse}
use auto_apply.Llm.Router.Resolve.{resolve_chain, chain_names, present, order_index}
use auto_apply.Llm.Router.Attempt.{
  attempt_provider, settle, with_key, after_gate, record_failure, record_success, punish,
}
use auto_apply.Llm.Router.Exhaust.{error_message}
use auto_apply.Llm.Router.Route.{try_chain, route_llm_request, route_transaction}
use auto_apply.Llm.Router.Loop.{called_names, attempt_names}
use auto_apply.Llm.Router.Calls.{attempt_provider_blocked}
use auto_apply.Llm.Router.Order.{InOrder, Precedes, resolve_chain-InOrder}
use auto_apply.Llm.Router.Results.{
  route_llm_request-Follows, route_llm_request-IsSound, route_llm_request_exhausted,
}
use auto_apply.Llm.Router.Reports.{AnsweredBy, route_llm_request_answered}
use auto_apply.Llm.Fixtures.{empty_table, opened_table, world, request, flaky, dead, provider}

abbrev late : String → Attempt
late name = record {
  provider = name;
  status = "failed";
  error_type = "timeout";
  called = true;
  skipped_by_breaker = false;
  reply = noted none none 9;
  repairs = none;
}

abbrev first_answer : LlmResponse
first_answer = record {
  content = b'h' ∷ b'i' ∷ [];
  provider = "gemini";
  model = "m";
  prompt_tokens = 1;
  completion_tokens = 2;
  latency_ms = 3;
}

-- the first provider times out, and the second one's answer is returned
flaky_run : (route_llm_request flaky request 1000 world).0 ≡ ok first_answer
unfolding route_llm_request route_transaction try_chain attempt_provider settle with_key after_gate
    record_failure record_success resolve_chain chain_names present order_index
    list_active_providers handle_breakers get_breaker is_registered punish handle_count_failure
    increment_failure ensure_breaker put
flaky_run = refl

dead_run :
    (route_llm_request dead request 1000 world).0
    ≡ err (
        providers_exhausted
          (error_message ("groq" ∷ "gemini" ∷ []))
          (late "groq" ∷ late "gemini" ∷ [])
          ("groq" ∷ "gemini" ∷ []))
unfolding route_llm_request route_transaction try_chain attempt_provider settle with_key after_gate
    record_failure record_success resolve_chain chain_names present order_index
    list_active_providers handle_breakers get_breaker is_registered punish handle_count_failure
    increment_failure ensure_breaker put
dead_run = refl

abbrev cooling_world : World
cooling_world = record world { breakers = opened_table }

attempt_provider_blocked_example :
    (attempt_provider flaky request 50 "groq" (provider 2 "groq" 1) cooling_world).1.calls ≡ []
attempt_provider_blocked_example =
    attempt_provider_blocked flaky request 50 "groq" (provider 2 "groq" 1) cooling_world (inr refl)

empty_table-IsSound : IsSound empty_table
empty_table-IsSound = record { at = λ u n b e. cc }

route_llm_request-Follows_example :
    Follows 1000 7 empty_table (route_llm_request flaky request 1000 world).1.breakers
route_llm_request-Follows_example = route_llm_request-Follows flaky request 1000 world

route_llm_request-IsSound_example : IsSound (route_llm_request dead request 1000 world).1.breakers
route_llm_request-IsSound_example =
    route_llm_request-IsSound dead request 1000 world empty_table-IsSound

route_llm_request_exhausted_example :
    (attempt_names (late "groq" ∷ late "gemini" ∷ [])
      ≡ map (λ e. e.0) (resolve_chain world request))
    × (called_names (route_llm_request dead request 1000 world).1.calls ≡ "groq" ∷ "gemini" ∷ [])
    × (error_message ("groq" ∷ "gemini" ∷ []) ≡ error_message ("groq" ∷ "gemini" ∷ []))
route_llm_request_exhausted_example =
    route_llm_request_exhausted dead request 1000 world (error_message ("groq" ∷ "gemini" ∷ []))
      (late "groq" ∷ late "gemini" ∷ []) ("groq" ∷ "gemini" ∷ []) dead_run

route_llm_request_answered_example :
    AnsweredBy flaky request 1000 world first_answer
      (route_llm_request flaky request 1000 world).1.calls
route_llm_request_answered_example =
    route_llm_request_answered flaky request 1000 world first_answer flaky_run

resolve_chain-InOrder_example :
    InOrder (Precedes (chain_names world request)) (resolve_chain world request)
    × Perm
        (resolve_chain world request)
        (present (chain_names world request) (list_active_providers world 7))
resolve_chain-InOrder_example = resolve_chain-InOrder world request
