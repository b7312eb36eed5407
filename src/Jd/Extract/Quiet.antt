-- ===== src/Jd/Extract/Quiet.antt =====
-- The rows of an extraction are written without a call to a provider
-- (backend/app/core_engine/jd_extractor.py).
use auto_apply.Common.{
  ℕ, ◌≡◌, refl, ◌∙◌, String, Bool, true, false, not, ◌&&◌, Option, none, some, if_induction,
  if◌then◌else◌, one_of, is_some, Text,
}
use auto_apply.Common.Exec.{Exec, Outcome, Leaves, bind-Leaves, weaker-Leaves, raise, ◌>>=◌}
use auto_apply.Json.{Value, Fields}
use auto_apply.Jd.Budget.{JdError, validation_failed}
use auto_apply.Jd.Schema.{DoorRoute, is_plausible_posting}
use auto_apply.Jd.Env.{JdEnv, hash_content}
use auto_apply.Jd.Store.{
  JdWorld, JobRow, Snapshot, get_or_create_for_user, job_or_new, insert_job, created_row,
  or_unextracted, find_job_by_url, valid_platforms, valid_sources, upsert_snapshot, stored_or_new,
  find_snapshot, apply_snapshot, audit,
}
use auto_apply.Jd.Extract.{
  JobExtraction, Gathered, serve_cached, persist, pass_gate, finish_extraction, finish_payload,
  is_bound_to, text_or_empty, build_payload, body_or_empty,
}
use auto_apply.Llm.Store.{Call}
use mathlib.Core.List.{List}

abbrev pub asked_of : JdWorld → List Call
asked_of w = w.feed.llm.calls

abbrev pub Quiet : {A : Type 0} → JdWorld → Outcome JdError A × JdWorld → Type 0
Quiet w = Leaves (λ _ v. asked_of v ≡ asked_of w) (λ v. asked_of v ≡ asked_of w)

pub bind-Quiet :
    {A B : Type 0} (w : JdWorld) (m : Exec JdWorld JdError A) (f : A → Exec JdWorld JdError B)
    → Quiet w (m w)
    → ((a : A) (v : JdWorld) → Quiet v (f a v))
    → Quiet w ((m >>= f) w)
bind-Quiet w m f h k =
    bind-Leaves (λ _ v. asked_of v ≡ asked_of w) (λ _ v. asked_of v ≡ asked_of w)
      (λ v. asked_of v ≡ asked_of w) m f w h
      (λ a v e.
        weaker-Leaves (λ _ u. asked_of u ≡ asked_of v) (λ _ u. asked_of u ≡ asked_of w)
          (λ u. asked_of u ≡ asked_of v) (λ u. asked_of u ≡ asked_of w) (f a v) (λ b u d. d ∙ e)
          (λ u d. d ∙ e) (k a v))

insert_job-Quiet :
    (now user_id : ℕ) (route : DoorRoute) (source : String) (title company : Value) (w : JdWorld)
    → Quiet w (insert_job now user_id route source title company w)
unfolding insert_job
insert_job-Quiet now user_id route source title company w =
    if_induction (λ (o : Outcome JdError Unit × JdWorld). Quiet w o)
      (not (one_of route.platform valid_platforms && one_of source valid_sources)) _ _ (λ _. refl)
      (λ _.
        if_induction (λ (o : Outcome JdError Unit × JdWorld). Quiet w o)
          (is_some (find_job_by_url user_id route.url w)) _ _ (λ _. refl) (λ _. refl))

get_or_create_for_user-Quiet :
    (now user_id : ℕ) (route : DoorRoute) (source : String) (title company : Value) (w : JdWorld)
    → Quiet w (get_or_create_for_user now user_id route source title company w)
unfolding get_or_create_for_user
get_or_create_for_user-Quiet now user_id route source title company w =
    go (find_job_by_url user_id route.url w)
  where
    read_back : (o : Option JobRow) (v : JdWorld) → Quiet v (created_row o v)
    read_back none v = refl
    read_back (some job) v = refl

    go : (o : Option JobRow) → Quiet w (job_or_new now user_id route source title company o w)
    go (some job) = refl
    go none =
        bind-Quiet w
          (insert_job now user_id route source (or_unextracted title) (or_unextracted company)) _
          (insert_job-Quiet now user_id route source (or_unextracted title) (or_unextracted company)
            w)
          (λ _ v. read_back (find_job_by_url user_id route.url v) v)

upsert_snapshot-Quiet :
    (now : ℕ) (h : String) (payload : Fields) (raw_text : Option Text) (w : JdWorld)
    → Quiet w (upsert_snapshot now h payload raw_text w)
unfolding upsert_snapshot
upsert_snapshot-Quiet now h payload raw_text w = go (find_snapshot h w.snapshots)
  where
    go : (o : Option Snapshot) → Quiet w (stored_or_new now h payload raw_text o w)
    go none = refl
    go (some s) = refl

-- an audit row that is written or not
pub audited_calls :
    (b : Bool) (user_id job_id : ℕ) (action : String) (details : Fields) (w : JdWorld)
    → asked_of (if b then audit user_id action job_id details w else w) ≡ asked_of w
audited_calls b user_id job_id action details w =
    if_induction (λ (v : JdWorld). asked_of v ≡ asked_of w) b
      (audit user_id action job_id details w) w (λ _. refl) (λ _. refl)

-- a snapshot that is bound or not
pub bound_calls :
    (now user_id : ℕ) (cached : Snapshot) (job : JobRow) (v : JdWorld)
    → asked_of (
        if not (is_bound_to cached.id job)
        then apply_snapshot now user_id job.id cached.id cached.content_hash v
        else v)
      ≡ asked_of v
unfolding apply_snapshot
bound_calls now user_id cached job v =
    if_induction (λ (u : JdWorld). asked_of u ≡ asked_of v) (not (is_bound_to cached.id job))
      (apply_snapshot now user_id job.id cached.id cached.content_hash v) v (λ _. refl) (λ _. refl)

module _ (env : JdEnv) (now user_id : ℕ) (source : String) where
  pub serve_cached-Quiet :
      (route : DoorRoute) (cached : Snapshot) (w : JdWorld)
      → Quiet w (serve_cached env now user_id source route cached w)
  unfolding serve_cached apply_snapshot
  serve_cached-Quiet route cached w =
      bind-Quiet w
        (get_or_create_for_user now user_id route source (text_or_empty "title" cached.payload)
          (text_or_empty "company" cached.payload))
        _
        (get_or_create_for_user-Quiet now user_id route source
          (text_or_empty "title" cached.payload) (text_or_empty "company" cached.payload) w)
        (λ (job, created) v.
          audited_calls created user_id job.id "job_discovered" _ _
          ∙ bound_calls now user_id cached job v)

  persist-Quiet :
      (route : DoorRoute) (g : Gathered) (payload : Fields) (w : JdWorld)
      → Quiet w (persist env now user_id source route g payload w)
  unfolding persist apply_snapshot
  persist-Quiet route g payload w =
      let h = hash_content env g.page.final_url (body_or_empty g.page.hash_body) in
      bind-Quiet w (upsert_snapshot now h payload (some g.page.cleaned_text)) _
        (upsert_snapshot-Quiet now h payload (some g.page.cleaned_text) w)
        (λ i v.
          bind-Quiet v
            (get_or_create_for_user now user_id route source (text_or_empty "title" payload)
              (text_or_empty "company" payload))
            _
            (get_or_create_for_user-Quiet now user_id route source (text_or_empty "title" payload)
              (text_or_empty "company" payload) v)
            (λ (job, created) u. audited_calls created user_id job.id "job_discovered" _ _))

  pub finish_extraction-Quiet :
      (route : DoorRoute) (g : Gathered) (w : JdWorld)
      → Quiet w (finish_extraction env now user_id source route g w)
  unfolding finish_extraction
  finish_extraction-Quiet route g w = go (build_payload g)
    where
      gated :
          (payload : Fields) (o : Option Bool)
          → Quiet w (pass_gate env now user_id source route g payload o w)
      gated payload none = refl
      gated payload (some false) = refl
      gated payload (some true) = persist-Quiet route g payload w

      go : (o : Option Fields) → Quiet w (finish_payload env now user_id source route g o w)
      go none = refl
      go (some payload) =
          if_induction (λ (m : Exec JdWorld JdError JobExtraction). Quiet w (m w))
            (env.validates payload)
            (pass_gate env now user_id source route g payload
              (is_plausible_posting payload g.page.jsonld_found))
            (raise validation_failed)
            (λ _. gated payload (is_plausible_posting payload g.page.jsonld_found)) (λ _. refl)
