-- ===== src/Llm/Structured/Exchange.antt =====
-- What the exchange with one provider does to the breakers.
use auto_apply.Common.{
  ℕ, zero, suc, ◌+◌, String, ◌≡◌, refl, sym, Bool, true, false, ◌||◌, Option, List, [], ◌∷◌, ◌++◌,
  Text, Bool-cases, inl, inr, length, if_induction, if◌then◌else◌,
}
use auto_apply.Json.{Value}
use auto_apply.Llm.Breaker.{Table}
use auto_apply.Llm.Breaker.Edges.{Follows, Follows-refl}
use auto_apply.Llm.Gate.Laws.{Held}
use auto_apply.Llm.Gate.Sound.{IsSound}
use auto_apply.Llm.Store.{ProviderRow, ChatResponse, Call, World}
use auto_apply.Llm.Router.Types.{Env, Request, is_answered, is_unavailable}
use auto_apply.Llm.Router.Attempt.{record_failure, record_success, punish, reset_if}
use auto_apply.Llm.Router.Turn.{punish-Follows, punish-IsSound, reset_if-Follows, reset_if-IsSound}
use auto_apply.Llm.Structured.{
  Shape, Reply, valid, gave_up, Reading, instance_of, misshapen, read_answer, on_reading, accept,
  refuse, after_call, converse, repair_note, structured_call,
}

-- a property of the two ways in which an answer reads
pub on_reading_induction :
    (P : Reply × World → Type 0) (rd : Reading) (good : Value → Reply × World)
    (bad : String → Reply × World)
    → ((v : Value) → P (good v))
    → ((kind : String) → P (bad kind))
    → P (on_reading rd good bad)
on_reading_induction P (instance_of v) good bad p q = p v
on_reading_induction P (misshapen kind) good bad p q = q kind

module _ (env : Env) (shape : Shape) (rq : Request) (now max_repairs : ℕ) (name : String)
    (row : ProviderRow) where
  -- `r` is the answer to the last call that was made.
  abbrev pub LastAnswer : World → ChatResponse → Type 0
  LastAnswer w r =
      (before : List Call) × (c : Call) × (w.calls ≡ before ++ c ∷ [])
      × (r ≡ env.chat (length before) c)

  -- what a last answer that yields no instance does to the breakers
  abbrev pub charged : Bool → ChatResponse → Table → Table
  charged trial r t =
      if is_answered r.status || is_unavailable r.status
      then t
      else punish env now rq.user_id name trial r t

  -- What an exchange does to the breakers it finds, by its last answer.
  abbrev pub Exchanged : Bool → Table → Reply × World → Type 0
  Exchanged trial t (valid v, w) =
      (r : ChatResponse) × LastAnswer w r
      × ((is_answered r.status ≡ true) × (read_answer shape r ≡ instance_of v))
      × (w.breakers ≡ reset_if trial rq.user_id name t)
  Exchanged trial t (gave_up called a, w) =
      (r : ChatResponse) × LastAnswer w r × (w.breakers ≡ charged trial r t)

  refuse-Exchanged :
      (trial : Bool) (r : ChatResponse) (w : World)
      → LastAnswer w r
      → is_answered r.status ≡ false
      → Exchanged trial w.breakers (refuse env shape rq now max_repairs name row trial r w)
  unfolding refuse record_failure
  refuse-Exchanged trial r w last e = elim (Bool-cases (is_unavailable r.status)) [
    | inl u ↦
        let same : charged trial r w.breakers ≡ w.breakers = rw (e, u) in rw u (r, last, sym same)
    | inr u ↦
        let same : charged trial r w.breakers ≡ punish env now rq.user_id name trial r w.breakers =
          rw (e, u) in
        rw u (r, last, sym same)
  ]

  read-Exchanged :
      (trial : Bool) (r : ChatResponse) (w : World) (bad : String → Reply × World) (rd : Reading)
      → LastAnswer w r
      → is_answered r.status ≡ true
      → read_answer shape r ≡ rd
      → ((kind : String) → Exchanged trial w.breakers (bad kind))
      → Exchanged trial w.breakers
          (on_reading rd (λ v. accept env shape rq now max_repairs name row trial r v w) bad)
  unfolding accept record_success
  read-Exchanged trial r w bad (instance_of v) last e reads h = (r, last, (e, reads), refl)
  read-Exchanged trial r w bad (misshapen kind) last e reads h = h kind

  after_call-Exchanged :
      (trial : Bool) (r : ChatResponse) (w : World) (bad : String → Reply × World)
      → LastAnswer w r
      → (is_answered r.status ≡ true → (kind : String) → Exchanged trial w.breakers (bad kind))
      → Exchanged trial w.breakers (after_call env shape rq now max_repairs name row trial r w bad)
  after_call-Exchanged trial r w bad last h = elim (Bool-cases (is_answered r.status)) [
    | inl e ↦ rw e (read-Exchanged trial r w bad (read_answer shape r) last e refl (h e))
    | inr e ↦ rw e (refuse-Exchanged trial r w last e)
  ]

  charged_answered :
      (trial : Bool) (r : ChatResponse) (t : Table)
      → is_answered r.status ≡ true
      → t ≡ charged trial r t
  charged_answered trial r t e = rw e

  pub converse-Exchanged :
      (trial : Bool) (key : Option String) (left used : ℕ) (prompt : Text) (w : World)
      → Exchanged trial w.breakers
          (converse env shape rq now max_repairs name row trial key left used prompt w)
  unfolding converse record_failure
  converse-Exchanged trial key zero used prompt w =
      let c = structured_call env shape rq now max_repairs name row key prompt in
      let r = env.chat (length w.calls) c in
      after_call-Exchanged trial r _ _ (w.calls, c, refl, refl)
        (λ e kind. (r, (w.calls, c, refl, refl), charged_answered trial r w.breakers e))
  converse-Exchanged trial key (suc left) used prompt w =
      let c = structured_call env shape rq now max_repairs name row key prompt in
      after_call-Exchanged trial (env.chat (length w.calls) c) _ _ (w.calls, c, refl, refl)
        (λ e kind. converse-Exchanged trial key left (used + 1) (rq.prompt ++ repair_note) _)

  charged-Follows :
      (trial : Bool) (r : ChatResponse) (t : Table) → Follows now rq.user_id t (charged trial r t)
  charged-Follows trial r t =
      if_induction (Follows now rq.user_id t) (is_answered r.status || is_unavailable r.status) t
        (punish env now rq.user_id name trial r t) (λ _. Follows-refl t)
        (λ _. punish-Follows env now rq.user_id name trial r t)

  charged-IsSound :
      (trial : Bool) (r : ChatResponse) (t : Table)
      → Held trial (t rq.user_id name)
      → IsSound t
      → IsSound (charged trial r t)
  charged-IsSound trial r t held s =
      if_induction IsSound (is_answered r.status || is_unavailable r.status) t
        (punish env now rq.user_id name trial r t) (λ _. s)
        (λ _. punish-IsSound env now rq.user_id name trial r t held s)

  pub Exchanged-Follows :
      (trial : Bool) (t : Table) (o : Reply × World)
      → Exchanged trial t o
      → Follows now rq.user_id t o.1.breakers
  Exchanged-Follows trial t (valid v, w) (r, last, read, h) =
      rw h (reset_if-Follows trial rq.user_id name t)
  Exchanged-Follows trial t (gave_up called a, w) (r, last, h) = rw h (charged-Follows trial r t)

  pub Exchanged-IsSound :
      (trial : Bool) (t : Table) (o : Reply × World)
      → Exchanged trial t o
      → Held trial (t rq.user_id name)
      → IsSound t
      → IsSound o.1.breakers
  Exchanged-IsSound trial t (valid v, w) (r, last, read, h) held s =
      rw h (reset_if-IsSound trial rq.user_id name t held s)
  Exchanged-IsSound trial t (gave_up called a, w) (r, last, h) held s =
      rw h (charged-IsSound trial r t held s)
