-- ===== src/Llm/Breaker/Tests.antt =====
-- Runs of the breaker's updates on sample rows.
use auto_apply.Common.{◌≡◌, refl, arith, false}
use auto_apply.Llm.Breaker.{claim_trial}
use auto_apply.Llm.Breaker.Laws.{claim_trial_exclusive}
use auto_apply.Llm.Fixtures.{opened_table}

claim_trial_exclusive_example :
    claim_trial (claim_trial opened_table 7 "groq" 100).1 7 "groq" 200
    ≡ (false, (claim_trial opened_table 7 "groq" 100).1)
unfolding claim_trial
claim_trial_exclusive_example =
    claim_trial_exclusive opened_table 7 "groq" 100 200 refl (omega arith)
