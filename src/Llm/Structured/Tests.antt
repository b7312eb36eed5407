-- ===== src/Llm/Structured/Tests.antt =====
-- Runs of the structured request on sample worlds.
use auto_apply.Common.{◌*◌, ◌+◌, length}
use auto_apply.Llm.Breaker.Edges.{Follows}
use auto_apply.Llm.Gate.Sound.{IsSound}
use auto_apply.Llm.Router.Resolve.{resolve_chain}
use auto_apply.Llm.Structured.{generate_structured}
use auto_apply.Llm.Structured.Health.{generate_structured-Follows, generate_structured-IsSound}
use auto_apply.Llm.Structured.Bounds.{New, generate_structured-calls}
use auto_apply.Llm.Fixtures.{world, request, learner, flaky, dead, any_shape, empty_table}

no_rows-IsSound : IsSound empty_table
no_rows-IsSound = record { at = λ u n b e. cc }

generate_structured-calls_example :
    New
      (length (resolve_chain world request) * (2 + 1))
      world
      (generate_structured learner any_shape request 1000 2 world).1
generate_structured-calls_example = generate_structured-calls learner any_shape request 1000 2 world

generate_structured-Follows_example :
    Follows 1000 7 empty_table (generate_structured flaky any_shape request 1000 2 world).1.breakers
generate_structured-Follows_example =
    generate_structured-Follows flaky any_shape request 1000 2 world

generate_structured-IsSound_example :
    IsSound (generate_structured dead any_shape request 1000 2 world).1.breakers
generate_structured-IsSound_example =
    generate_structured-IsSound dead any_shape request 1000 2 world no_rows-IsSound
