-- ===== src/Llm/Router/Turn.antt =====
-- What one provider's turn does to the breakers and to the log of calls.
use auto_apply.Common.{
  ℕ, String, ◌≡◌, refl, Bool, true, false, arith, Bool-cases, inl, inr, str_eq, ◌||◌,
}
use auto_apply.Llm.Breaker.{Table}
use auto_apply.Llm.Breaker.Edges.{Follows, Follows-refl, Follows-trans, Follows-reset}
use auto_apply.Llm.Gate.{handle_breakers}
use auto_apply.Llm.Gate.Laws.{Held, handle_breakers-Follows, handle_breakers-Held}
use auto_apply.Llm.Gate.Sound.{
  IsSound, handle_breakers-IsSound, handle_count_failure-IsSound, handle_rate_limit-IsSound,
  reset_circuit-IsSound, handle_count_failure-Follows, handle_rate_limit-Follows,
}
use auto_apply.Llm.Registry.{is_registered}
use auto_apply.Llm.Store.{ProviderRow, ChatResponse, World}
use auto_apply.Llm.Router.Types.{Env, Request, is_429}
use auto_apply.Llm.Router.Attempt.{
  Key, usable, unreadable, fatal, read_key, record_failure, record_success, punish, reset_if,
  settle, with_key, after_gate, attempt_provider, error_of,
}

module _ (env : Env) (now u : ℕ) (name : String) (trial : Bool) (r : ChatResponse) (t : Table) where
  pub punish-Follows : Follows now u t (punish env now u name trial r t)
  unfolding punish
  punish-Follows = elim (Bool-cases (str_eq (error_of r) "rate_limited" || is_429 r.status_code)) [
    | inl e ↦ rw e (handle_rate_limit-Follows env.jittered t u name r.retry_after trial now)
    | inr e ↦ rw e (handle_count_failure-Follows t u name trial now)
  ]

  pub punish-IsSound : Held trial (t u name) → IsSound t → IsSound (punish env now u name trial r t)
  unfolding punish
  punish-IsSound h s =
      elim (Bool-cases (str_eq (error_of r) "rate_limited" || is_429 r.status_code)) [
        | inl e ↦ rw e (handle_rate_limit-IsSound env.jittered t u name r.retry_after trial now h s)
        | inr e ↦ rw e (handle_count_failure-IsSound t u name trial now h s)
      ]

pub reset_if-Follows :
    {now : ℕ} (trial : Bool) (u : ℕ) (name : String) (t : Table)
    → Follows now u t (reset_if trial u name t)
reset_if-Follows true u name t = Follows-reset t name
reset_if-Follows false u name t = Follows-refl t

pub reset_if-IsSound :
    (trial : Bool) (u : ℕ) (name : String) (t : Table)
    → Held trial (t u name)
    → IsSound t
    → IsSound (reset_if trial u name t)
reset_if-IsSound true u name t h s = reset_circuit-IsSound t u name h s
reset_if-IsSound false u name t h s = s

module _ (env : Env) (rq : Request) (now : ℕ) (name : String) (row : ProviderRow) where
  settle-Follows :
      (trial : Bool) (r : ChatResponse) (w : World)
      → Follows now rq.user_id w.breakers (settle env rq now name row trial r w).1.breakers
  unfolding settle record_failure record_success
  settle-Follows trial r w = ground (
    arith,
    Follows-refl {now = now} {u = rq.user_id} w.breakers,
    reset_if-Follows {now = now} trial rq.user_id name w.breakers,
    punish-Follows env now rq.user_id name trial r w.breakers,
  )

  settle-IsSound :
      (trial : Bool) (r : ChatResponse) (w : World)
      → Held trial (w.breakers rq.user_id name)
      → IsSound w.breakers
      → IsSound (settle env rq now name row trial r w).1.breakers
  unfolding settle record_failure record_success
  settle-IsSound trial r w h s = ground (
    arith,
    s,
    reset_if-IsSound trial rq.user_id name w.breakers h s,
    punish-IsSound env now rq.user_id name trial r w.breakers h s,
  )

  with_key-Follows :
      (trial : Bool) (k : Key) (w : World)
      → Follows now rq.user_id w.breakers (with_key env rq now name row trial k w).1.breakers
  unfolding with_key record_failure
  with_key-Follows trial (usable key) w = settle-Follows trial (env.chat _ _) _
  with_key-Follows trial unreadable w = Follows-refl w.breakers
  with_key-Follows trial fatal w = Follows-refl w.breakers

  with_key-IsSound :
      (trial : Bool) (k : Key) (w : World)
      → Held trial (w.breakers rq.user_id name)
      → IsSound w.breakers
      → IsSound (with_key env rq now name row trial k w).1.breakers
  unfolding with_key record_failure
  with_key-IsSound trial (usable key) w h s = settle-IsSound trial (env.chat _ _) _ h s
  with_key-IsSound trial unreadable w h s = s
  with_key-IsSound trial fatal w h s = s

  after_gate-Follows :
      (g : Bool × Bool) (w : World)
      → Follows now rq.user_id w.breakers (after_gate env rq now name row g w).1.breakers
  unfolding after_gate
  after_gate-Follows (false, trial) w = Follows-refl w.breakers
  after_gate-Follows (true, trial) w = with_key-Follows trial (read_key env row.api_key_encrypted) w

  after_gate-IsSound :
      (g : Bool × Bool) (w : World)
      → (g.0 ≡ true → Held g.1 (w.breakers rq.user_id name))
      → IsSound w.breakers
      → IsSound (after_gate env rq now name row g w).1.breakers
  unfolding after_gate
  after_gate-IsSound (false, trial) w h s = s
  after_gate-IsSound (true, trial) w h s =
      with_key-IsSound trial (read_key env row.api_key_encrypted) w (h refl) s

  -- One turn moves the breakers only along the edges of the state machine.
  pub attempt_provider-Follows :
      (w : World)
      → Follows now rq.user_id w.breakers (attempt_provider env rq now name row w).1.breakers
  unfolding attempt_provider
  attempt_provider-Follows w = elim (Bool-cases (is_registered name)) [
    | inl e ↦ rw e (
        Follows-trans (handle_breakers-Follows w.breakers name) (
          after_gate-Follows (handle_breakers w.breakers rq.user_id name now).0
            (record w { breakers = (handle_breakers w.breakers rq.user_id name now).1 })))
    | inr e ↦ rw e (Follows-refl w.breakers)
  ]

  -- One turn keeps the breakers sound.
  pub attempt_provider-IsSound :
      (w : World) → IsSound w.breakers → IsSound (attempt_provider env rq now name row w).1.breakers
  unfolding attempt_provider
  attempt_provider-IsSound w s = elim (Bool-cases (is_registered name)) [
    | inl e ↦ rw e (
        after_gate-IsSound (handle_breakers w.breakers rq.user_id name now).0
          (record w { breakers = (handle_breakers w.breakers rq.user_id name now).1 })
          (handle_breakers-Held w.breakers rq.user_id name now)
          (handle_breakers-IsSound w.breakers rq.user_id name now s))
    | inr e ↦ rw e s
  ]
