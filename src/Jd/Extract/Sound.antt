-- ===== src/Jd/Extract/Sound.antt =====
-- `extract_job` and `refresh_job` and the consistency of the tables
-- (backend/app/core_engine/jd_extractor.py).
use auto_apply.Common.{
  ℕ, String, Bool, true, false, not, Option, none, some, if_induction, if◌then◌else◌,
}
use auto_apply.Common.Exec.{
  Exec, Outcome, ok, err, Leaves, bind-Leaves, transaction-Leaves, continue, raise,
}
use auto_apply.Json.{Fields}
use auto_apply.Jd.Budget.{JdError, validation_failed}
use auto_apply.Jd.Schema.{DoorRoute, is_plausible_posting}
use auto_apply.Jd.Env.{route_of, JdEnv, hash_content, cache_enabled}
use auto_apply.Jd.Store.{
  Snapshot, JdWorld, Feed, get_or_create_for_user, apply_snapshot, audit, upsert_snapshot,
  rollback_jd, find_snapshot_by_source_url,
}
use auto_apply.Jd.Store.Unique.{IsConsistent, Holds, upsert_snapshot-Leaves}
use auto_apply.Jd.Keeps.{
  get_or_create_for_user-Leaves, apply_snapshot-IsConsistent, Created, OfHead,
  find_snapshot_by_source_url-Holds,
}
use auto_apply.Jd.Extract.{
  JobExtraction, Gathered, serve_cached, persist, pass_gate, finish_extraction, finish_payload,
  extract_fresh, run_doors, extract_job, cached_or_fresh, cached_snapshot, is_bound_to,
  text_or_empty, build_payload, body_or_empty,
}

-- An audit row touches neither jobs nor snapshots.
audited :
    (b : Bool) (user_id job_id : ℕ) (action : String) (details : Fields) (w : JdWorld)
    → IsConsistent w
    → IsConsistent (if b then audit user_id action job_id details w else w)
audited b user_id job_id action details w c =
    if_induction IsConsistent b (audit user_id action job_id details w) w (λ _. c) (λ _. c)

module _ (env : JdEnv) (now user_id : ℕ) (source : String) where
  abbrev pub KeepsTables : Outcome JdError JobExtraction × JdWorld → Type 0
  KeepsTables = Leaves (λ _ w. IsConsistent w) IsConsistent

  serve_cached-Leaves :
      (route : DoorRoute) (cached : Snapshot) (w : JdWorld)
      → Holds w.snapshots cached.id cached.content_hash
      → IsConsistent w
      → KeepsTables (serve_cached env now user_id source route cached w)
  unfolding serve_cached
  serve_cached-Leaves route cached w held c =
      bind-Leaves (Created now user_id w.snapshots) (λ _ v. IsConsistent v) IsConsistent
        (get_or_create_for_user now user_id route source (text_or_empty "title" cached.payload)
          (text_or_empty "company" cached.payload))
        _ w
        (get_or_create_for_user-Leaves now user_id route source
          (text_or_empty "title" cached.payload) (text_or_empty "company" cached.payload) w c)
        (λ (job, created) v (d, e). audited created user_id job.id "job_discovered" _ _ (
          if_induction IsConsistent (not (is_bound_to cached.id job))
            (apply_snapshot now user_id job.id cached.id cached.content_hash v) v
            (λ _.
              apply_snapshot-IsConsistent now user_id job.id cached.id cached.content_hash v
                (rw e held) d)
            (λ _. d)))

  persist-Leaves :
      (route : DoorRoute) (g : Gathered) (payload : Fields) (w : JdWorld)
      → IsConsistent w
      → KeepsTables (persist env now user_id source route g payload w)
  unfolding persist
  persist-Leaves route g payload w c =
      let h = hash_content env g.page.final_url (body_or_empty g.page.hash_body) in
      bind-Leaves (λ i v. IsConsistent v × Holds v.snapshots i h) (λ _ v. IsConsistent v)
        IsConsistent (upsert_snapshot now h payload (some g.page.cleaned_text)) _ w
        (upsert_snapshot-Leaves now h payload (some g.page.cleaned_text) w c)
        (λ i v (d, held).
          bind-Leaves (Created now user_id v.snapshots) (λ _ u. IsConsistent u) IsConsistent
            (get_or_create_for_user now user_id route source (text_or_empty "title" payload)
              (text_or_empty "company" payload))
            _ v
            (get_or_create_for_user-Leaves now user_id route source (text_or_empty "title" payload)
              (text_or_empty "company" payload) v d)
            (λ (job, created) u (k, e).
              audited created user_id job.id "job_discovered" _ _
                (apply_snapshot-IsConsistent now user_id job.id i h u (rw e held) k)))

  finish_extraction-Leaves :
      (route : DoorRoute) (g : Gathered) (w : JdWorld)
      → IsConsistent w
      → KeepsTables (finish_extraction env now user_id source route g w)
  unfolding finish_extraction
  finish_extraction-Leaves route g w c = go (build_payload g)
    where
      gated :
          (payload : Fields) (o : Option Bool)
          → KeepsTables (pass_gate env now user_id source route g payload o w)
      gated payload none = c
      gated payload (some false) = c
      gated payload (some true) = persist-Leaves route g payload w c

      go : (o : Option Fields) → KeepsTables (finish_payload env now user_id source route g o w)
      go none = c
      go (some payload) =
          if_induction (λ (m : Exec JdWorld JdError JobExtraction). KeepsTables (m w))
            (env.validates payload)
            (pass_gate env now user_id source route g payload
              (is_plausible_posting payload g.page.jsonld_found))
            (raise validation_failed)
            (λ _. gated payload (is_plausible_posting payload g.page.jsonld_found)) (λ _. c)

  extract_fresh-Leaves :
      (route : DoorRoute) (w : JdWorld)
      → IsConsistent w
      → KeepsTables (extract_fresh env now user_id source route w)
  unfolding extract_fresh
  extract_fresh-Leaves route w c =
      go (run_doors env now user_id source route w.feed).0
        (run_doors env now user_id source route w.feed).1
    where
      go :
          (o : Outcome JdError Gathered) (f : Feed)
          → KeepsTables
              (continue o (finish_extraction env now user_id source route) (record w { feed = f }))
      go (ok g) f = finish_extraction-Leaves route g (record w { feed = f }) c
      go (err e) f = c

  cached_or_fresh-Leaves :
      (route : DoorRoute) (w : JdWorld)
      → IsConsistent w
      → KeepsTables (
          cached_or_fresh env now user_id source route
            (cached_snapshot env now user_id source route w)
            w)
  cached_or_fresh-Leaves route w c = go (cache_enabled env)
    where
      served :
          (o : Option Snapshot)
          → OfHead (λ s. Holds w.snapshots s.id s.content_hash) o
          → KeepsTables (cached_or_fresh env now user_id source route o w)
      served none h = extract_fresh-Leaves route w c
      served (some cached) h = serve_cached-Leaves route cached w h c

      go :
          (b : Bool)
          → KeepsTables (
              cached_or_fresh env now user_id source route
                (if b then find_snapshot_by_source_url route.url w else none)
                w)
      go true =
          served (find_snapshot_by_source_url route.url w)
            (find_snapshot_by_source_url-Holds route.url w c)
      go false = served none tt

  pub extract_job-Leaves :
      (url : String) (w : JdWorld)
      → IsConsistent w
      → KeepsTables (extract_job env now user_id source url w)
  unfolding extract_job
  extract_job-Leaves url w c =
      transaction-Leaves (λ _ v. IsConsistent v) IsConsistent IsConsistent rollback_jd
        (λ v.
          cached_or_fresh env now user_id source (route_of env url)
            (cached_snapshot env now user_id source (route_of env url) v) v)
        w (cached_or_fresh-Leaves (route_of env url) w c) (λ v d. c)
