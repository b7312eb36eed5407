-- ===== src/Llm/Structured/Bounds.antt =====
-- How many calls a structured request makes, and with which prompts.
use auto_apply.Common.{
  ℕ, zero, suc, ◌+◌, ◌*◌, ◌≤◌, String, ◌≡◌, refl, Bool, true, false, Option, List, [], ◌∷◌, ◌++◌,
  sym, ◌∙◌, ap, Text, Bool-cases, inl, inr, length, length-append, arith,
}
use mathlib.Core.List.{append_assoc, append-nil}
use auto_apply.Common.Exec.{Exec, Outcome, ok, err, settle, pure, continue}
use auto_apply.Llm.Gate.{handle_breakers}
use auto_apply.Llm.Registry.{is_registered}
use auto_apply.Llm.Store.{ProviderRow, ChatResponse, Call, World, rollback}
use auto_apply.Llm.Router.Types.{
  Env, Request, RouterError, Progress, note, is_answered, is_unavailable,
}
use auto_apply.Llm.Router.Resolve.{Chain, resolve_chain}
use auto_apply.Llm.Router.Attempt.{
  Key, usable, unreadable, fatal, read_key, record_failure, record_success,
}
use auto_apply.Llm.Router.Route.{nothing_yet}
use auto_apply.Llm.Router.Results.{exhaust-calls}
use auto_apply.Llm.Structured.{
  Shape, Reply, valid, gave_up, accept, refuse, after_call, read_answer, converse, structured_call,
  structured_with_key, structured_after_gate, structured_turn, StructuredResult, produced, used_up,
  structured_chain, close_structured, value_or_raise, generate_structured, repair_note,
}
use auto_apply.Llm.Structured.Exchange.{on_reading_induction}

abbrev pub copies : ℕ → Call → List Call
copies zero c = []
copies (suc n) c = c ∷ copies n c

length-copies : (n : ℕ) (c : Call) → length (copies n c) ≡ n
length-copies zero c = refl
length-copies (suc n) c = ap suc (length-copies n c)

abbrev pub New : ℕ → World → World → Type 0
New n w w' = (made : List Call) × (w'.calls ≡ w.calls ++ made) × (length made ≤ n)

New-weaker : (m n : ℕ) (w w' : World) → m ≤ n → New m w w' → New n w w'
New-weaker m n w w' h (cs, e, b) = (cs, e, omega arith)

New-trans : (m n : ℕ) (a b c : World) → New m a b → New n b c → New (m + n) a c
New-trans m n a b c (xs, e, h) (ys, f, k) = (
  xs ++ ys,
  f ∙ ap (λ (l : List Call). l ++ ys) e ∙ append_assoc a.calls xs ys,
  omega (arith, length-append xs ys),
)

module _ (env : Env) (shape : Shape) (rq : Request) (now max_repairs : ℕ) (name : String)
    (row : ProviderRow) where
  after_call-calls :
      (trial : Bool) (r : ChatResponse) (w : World) (bad : String → Reply × World)
      (P : List Call → Type 0)
      → P w.calls
      → ((kind : String) → P (bad kind).1.calls)
      → P (after_call env shape rq now max_repairs name row trial r w bad).1.calls
  unfolding accept refuse record_success record_failure
  after_call-calls trial r w bad P h k = elim (Bool-cases (is_answered r.status)) [
    | inl e ↦ rw e (
        on_reading_induction (λ o. P o.1.calls) (read_answer shape r)
          (λ v. accept env shape rq now max_repairs name row trial r v w) bad (λ v. h) k)
    | inr e ↦ elim (Bool-cases (is_unavailable r.status)) [
      | inl u ↦ rw (e, u) h
      | inr u ↦ rw (e, u) h
    ]
  ]

  pub converse-calls :
      (trial : Bool) (key : Option String) (left used : ℕ) (prompt : Text) (w : World)
      → (repairs_made : ℕ) × (repairs_made ≤ left)
        × ((converse env shape rq now max_repairs name row trial key left used prompt w).1.calls
            ≡ w.calls
              ++ structured_call env shape rq now max_repairs name row key prompt
                ∷ copies repairs_made (
                    structured_call env shape rq now max_repairs name row key
                      (rq.prompt ++ repair_note)))
  unfolding converse record_failure
  converse-calls trial key zero used prompt w =
      after_call-calls trial _ _ _
        (λ cs.
          (k : ℕ) × (k ≤ zero)
          × (cs
              ≡ w.calls
                ++ structured_call env shape rq now max_repairs name row key prompt
                  ∷ copies k (
                      structured_call env shape rq now max_repairs name row key
                        (rq.prompt ++ repair_note))))
        (0, omega arith, refl) (λ kind. (0, omega arith, refl))
  converse-calls trial key (suc left) used prompt w =
      after_call-calls trial _ _ _
        (λ cs.
          (k : ℕ) × (k ≤ suc left)
          × (cs
              ≡ w.calls
                ++ structured_call env shape rq now max_repairs name row key prompt
                  ∷ copies k (
                      structured_call env shape rq now max_repairs name row key
                        (rq.prompt ++ repair_note))))
        (0, omega arith, refl)
        (λ kind.
          let (k, bound, e) =
            converse-calls trial key left (used + 1) (rq.prompt ++ repair_note) _ in
          (
            suc k,
            omega arith,
            e
                ∙ append_assoc w.calls
                    (structured_call env shape rq now max_repairs name row key prompt ∷ []) _,
          ))

  keyed-New :
      (trial : Bool) (k : Key) (w : World)
      → New
          (max_repairs + 1)
          w
          (structured_with_key env shape rq now max_repairs name row trial k w).1
  unfolding structured_with_key record_failure
  keyed-New trial (usable key) w =
      let (k, bound, e) = converse-calls trial key max_repairs 0 rq.prompt w in
      (
        _,
        e,
        omega (
          arith,
          length-copies k (
              structured_call env shape rq now max_repairs name row key (rq.prompt ++ repair_note)),
        ),
      )
  keyed-New trial unreadable w = ([], sym (append-nil w.calls), omega arith)
  keyed-New trial fatal w = ([], sym (append-nil w.calls), omega arith)

  gated-New :
      (g : Bool × Bool) (w : World)
      → New (max_repairs + 1) w (structured_after_gate env shape rq now max_repairs name row g w).1
  unfolding structured_after_gate
  gated-New (false, trial) w = ([], sym (append-nil w.calls), omega arith)
  gated-New (true, trial) w = keyed-New trial (read_key env row.api_key_encrypted) w

  structured_turn-New :
      (w : World)
      → New (max_repairs + 1) w (structured_turn env shape rq now max_repairs name row w).1
  unfolding structured_turn
  structured_turn-New w = elim (Bool-cases (is_registered name)) [
    | inl e ↦ rw e (
        gated-New (handle_breakers w.breakers rq.user_id name now).0
          (record w { breakers = (handle_breakers w.breakers rq.user_id name now).1 }))
    | inr e ↦ rw e ([], sym (append-nil w.calls), omega arith)
  ]

module _ (env : Env) (shape : Shape) (rq : Request) (now max_repairs : ℕ) where
  abbrev step_on : Chain → Progress → String → Reply → Exec World RouterError StructuredResult
  step_on rest p name reply = elim reply [
    | valid v ↦ pure (produced v)
    | gave_up called a ↦ structured_chain env shape rq now max_repairs rest (note name called a p)
  ]

  structured_chain-New :
      (chain : Chain) (p : Progress) (w : World)
      → New
          (length chain * (max_repairs + 1))
          w
          (structured_chain env shape rq now max_repairs chain p w).1
  unfolding structured_chain
  structured_chain-New [] p w = ([], sym (append-nil w.calls), omega arith)
  structured_chain-New ((name, row) ∷ rest) p w =
      New-weaker ((max_repairs + 1) + length rest * (max_repairs + 1)) _ w
        (structured_chain env shape rq now max_repairs ((name, row) ∷ rest) p w).1 (ground arith)
        (New-trans (max_repairs + 1) (length rest * (max_repairs + 1)) w
          (structured_turn env shape rq now max_repairs name row w).1
          (structured_chain env shape rq now max_repairs ((name, row) ∷ rest) p w).1
          (structured_turn-New env shape rq now max_repairs name row w)
          (go (structured_turn env shape rq now max_repairs name row w).0
            (structured_turn env shape rq now max_repairs name row w).1
            (λ q. structured_chain-New rest q)))
    where
      go :
          (o : Outcome RouterError Reply) (w' : World)
          → ((q : Progress) (v : World)
              → New
                  (length rest * (max_repairs + 1))
                  v
                  (structured_chain env shape rq now max_repairs rest q v).1)
          → New (length rest * (max_repairs + 1)) w' (continue o (step_on rest p name) w').1
      go (ok (valid v)) w' ih = ([], sym (append-nil w'.calls), omega arith)
      go (ok (gave_up called a)) w' ih = ih (note name called a p) w'
      go (err e) w' ih = ([], sym (append-nil w'.calls), omega arith)

  -- A structured request makes at most `max_repairs + 1` calls for each entry of its chain, taken
  -- together, and takes back none that was made.
  pub generate_structured-calls :
      (w : World)
      → New
          (length (resolve_chain w rq) * (max_repairs + 1))
          w
          (generate_structured env shape rq now max_repairs w).1
  unfolding generate_structured
  generate_structured-calls w =
      go (structured_chain env shape rq now max_repairs (resolve_chain w rq) nothing_yet w).0
        (structured_chain env shape rq now max_repairs (resolve_chain w rq) nothing_yet w).1
        (structured_chain-New (resolve_chain w rq) nothing_yet w)
    where
      go :
          (o : Outcome RouterError StructuredResult) (w' : World)
          → New (length (resolve_chain w rq) * (max_repairs + 1)) w w'
          → New
              (length (resolve_chain w rq) * (max_repairs + 1))
              w
              (continue
                (settle rollback w
                  (continue o (close_structured env shape rq now max_repairs) w')).0
                (value_or_raise env shape rq now max_repairs)
                (settle rollback w
                  (continue o (close_structured env shape rq now max_repairs) w')).1).1
      go (ok (produced v)) w' h = h
      go (ok (used_up p)) w' (l, e, b) = (l, exhaust-calls rq p w' ∙ e, b)
      go (err e) w' h = h
