-- ===== src/Llm/Router/Count.antt =====
-- How many calls one routed request makes, and what it leaves of the configuration
-- (backend/app/llm/router.py).
use auto_apply.Common.{
  ℕ, ◌+◌, ◌≤◌, String, ◌≡◌, refl, Bool, true, false, List, [], ◌∷◌, arith, Bool-cases, inl, inr,
  length, length-append, ap, ◌∙◌,
}
use auto_apply.Common.Exec.{Outcome, ok, err, continue}
use auto_apply.Llm.Gate.{handle_breakers}
use auto_apply.Llm.Registry.{is_registered}
use auto_apply.Llm.Store.{ProviderRow, ChatResponse, Call, World}
use auto_apply.Llm.Router.Types.{
  Env, Request, RouterError, Progress, LoopResult, returned, exhausted, note, is_answered,
  is_unavailable,
}
use auto_apply.Llm.Router.Resolve.{Chain, resolve_chain}
use auto_apply.Llm.Router.Attempt.{
  Verdict, replied, lost, Key, usable, unreadable, fatal, read_key, record_failure, record_success,
  settle, with_key, after_gate, attempt_provider,
}
use auto_apply.Llm.Router.Calls.{Reports, attempt_provider-Reports}
use auto_apply.Llm.Router.Route.{try_chain, nothing_yet, route_llm_request}
use auto_apply.Llm.Router.Loop.{try_chain_induction, resume}
use auto_apply.Llm.Router.Exhaust.{exhaust}
use auto_apply.Llm.Router.Results.{finish, route-eq-finish, exhaust-calls}

-- the rows that a chain is resolved from
abbrev pub Config : World → World → Type 0
Config w w' = (w'.providers ≡ w.providers) × (w'.settings ≡ w.settings)

pub Config-trans : (a b c : World) → Config a b → Config b c → Config a c
Config-trans a b c (p, q) (r, s) = (r ∙ p, s ∙ q)

module _ (env : Env) (rq : Request) (now : ℕ) where
  settle-Config :
      (name : String) (row : ProviderRow) (trial : Bool) (r : ChatResponse) (w : World)
      → Config w (settle env rq now name row trial r w).1
  unfolding settle record_failure record_success
  settle-Config name row trial r w = elim (Bool-cases (is_answered r.status)) [
    | inl e ↦ rw e (refl, refl)
    | inr e ↦ elim (Bool-cases (is_unavailable r.status)) [
      | inl f ↦ rw (e, f) (refl, refl)
      | inr f ↦ rw (e, f) (refl, refl)
    ]
  ]

  with_key-Config :
      (name : String) (row : ProviderRow) (trial : Bool) (k : Key) (w : World)
      → Config w (with_key env rq now name row trial k w).1
  unfolding with_key record_failure
  with_key-Config name row trial (usable key) w = settle-Config name row trial (env.chat _ _) _
  with_key-Config name row trial unreadable w = (refl, refl)
  with_key-Config name row trial fatal w = (refl, refl)

  after_gate-Config :
      (name : String) (row : ProviderRow) (g : Bool × Bool) (w : World)
      → Config w (after_gate env rq now name row g w).1
  unfolding after_gate
  after_gate-Config name row (false, trial) w = (refl, refl)
  after_gate-Config name row (true, trial) w =
      with_key-Config name row trial (read_key env row.api_key_encrypted) w

  attempt_provider-Config :
      (name : String) (row : ProviderRow) (w : World)
      → Config w (attempt_provider env rq now name row w).1
  unfolding attempt_provider
  attempt_provider-Config name row w = elim (Bool-cases (is_registered name)) [
    | inl e ↦ rw e (
        after_gate-Config name row (handle_breakers w.breakers rq.user_id name now).0
          (record w { breakers = (handle_breakers w.breakers rq.user_id name now).1 }))
    | inr e ↦ rw e (refl, refl)
  ]

  -- one turn makes one call at most
  turn-calls :
      (name : String) (before after : List Call) (o : Outcome RouterError Verdict)
      → Reports name before after o
      → length after ≤ length before + 1
  turn-calls name before after (ok (replied r)) (c, e, m, n) =
      omega (arith, ap length e, length-append before (c ∷ []))
  turn-calls name before after (ok (lost true a)) (c, e, m, n) =
      omega (arith, ap length e, length-append before (c ∷ []))
  turn-calls name before after (ok (lost false a)) (e, k) = omega (arith, ap length e)
  turn-calls name before after (err x) (e, k) = omega (arith, ap length e)

  try_chain-length :
      (chain : Chain) (p : Progress) (w : World)
      → length (try_chain env rq now chain p w).1.calls ≤ length w.calls + length chain
  unfolding try_chain
  try_chain-length [] p w = omega arith
  try_chain-length ((name, row) ∷ rest) p w =
      go (attempt_provider env rq now name row w).0 (attempt_provider env rq now name row w).1
        (turn-calls name w.calls _ _ (attempt_provider-Reports env rq now name row w))
        (λ q. try_chain-length rest q)
    where
      go :
          (o : Outcome RouterError Verdict) (w' : World)
          → length w'.calls ≤ length w.calls + 1
          → ((q : Progress) (v : World)
              → length (try_chain env rq now rest q v).1.calls ≤ length v.calls + length rest)
          → length (continue o (resume env rq now rest p name) w').1.calls
            ≤ length w.calls + length ((name, row) ∷ rest)
      go (ok (replied r)) w' h ih = omega arith
      go (ok (lost called a)) w' h ih = omega (arith, ih (note name called a p) w')
      go (err e) w' h ih = omega arith

exhaust-Config : (rq : Request) (p : Progress) (w : World) → Config w (exhaust rq p w)
unfolding exhaust
exhaust-Config rq p w = (ground arith, ground arith)

module _ (env : Env) (rq : Request) (now : ℕ) (w : World) where
  finish-Config :
      (o : Outcome RouterError LoopResult) (w' : World)
      → Config w w'
      → Config w (finish rq w o w').1
  finish-Config (ok (returned r)) w' c = c
  finish-Config (ok (exhausted p)) w' c =
      Config-trans w w' (exhaust rq p w') c (exhaust-Config rq p w')
  finish-Config (err e) w' c = (refl, refl)

  pub route_llm_request-Config : Config w (route_llm_request env rq now w).1
  route_llm_request-Config = rw (route-eq-finish env rq now w) (
      finish-Config (try_chain env rq now (resolve_chain w rq) nothing_yet w).0
        (try_chain env rq now (resolve_chain w rq) nothing_yet w).1
        (try_chain_induction env rq now Config Config-trans (λ a. (refl, refl))
          (attempt_provider-Config env rq now) (resolve_chain w rq) nothing_yet w))

  finish-length :
      (o : Outcome RouterError LoopResult) (w' : World) (n : ℕ)
      → length w'.calls ≤ n
      → length (finish rq w o w').1.calls ≤ n
  finish-length (ok (returned r)) w' n h = h
  finish-length (ok (exhausted p)) w' n h = omega (arith, ap length (exhaust-calls rq p w'))
  finish-length (err e) w' n h = h

  -- One routed request makes one call at most for each entry of its chain.
  pub route_llm_request-length :
      length (route_llm_request env rq now w).1.calls ≤ length w.calls + length (resolve_chain w rq)
  route_llm_request-length = rw (route-eq-finish env rq now w) (
      finish-length (try_chain env rq now (resolve_chain w rq) nothing_yet w).0
        (try_chain env rq now (resolve_chain w rq) nothing_yet w).1 _
        (try_chain-length env rq now (resolve_chain w rq) nothing_yet w))
