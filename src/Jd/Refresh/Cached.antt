-- ===== src/Jd/Refresh/Cached.antt =====
-- A refresh of a job whose page has changed, where a snapshot of its url is stored: `extract_job`
-- serves that snapshot (backend/app/core_engine/jd_extractor.py).
use auto_apply.Common.{
  ℕ, ◌≡◌, refl, sym, ap, subst, ◌∙◌, String, Bool, true, false, not, Option, none, some, List, [],
  ◌∷◌, ◌++◌, length, find_first, str_eq_refl, Bool-cases, inl, inr, arith, if_induction, leb,
  if◌then◌else◌,
}
use auto_apply.Common.Exec.{Exec, Returns, bind-Leaves, transaction-Leaves}
use auto_apply.Json.{str}
use auto_apply.Jd.Budget.{JdError}
use auto_apply.Jd.Schema.{DoorRoute}
use auto_apply.Jd.Classify.Laws.{classify_url-FitsJobs}
use auto_apply.Jd.Env.{route_of, JdEnv, hash_content, cache_enabled, FetchedResult, fetched}
use auto_apply.Jd.Store.{
  JdWorld, JobRow, JobDetail, Snapshot, is_job_of, find_job_by_url, job_or_new, get_job_detail,
  get_or_create_for_user, find_snapshot_by_source_url, apply_snapshot, rollback_jd, with_snapshot,
  snapshot_by_id, joined, has_id,
}
use auto_apply.Jd.Extract.{
  JobExtraction, serve_cached, cached_or_fresh, cached_snapshot, extract_job, is_bound_to,
  text_or_empty,
}
use auto_apply.Jd.Extract.Quiet.{asked_of, audited_calls, bound_calls}
use auto_apply.Jd.Refresh.{
  FreshnessResult, refresh_job, refetched, compare_hash, on_refetch, on_detail, is_hash, went_stale,
}

find_first_passes :
    (p : JobRow → Bool) (l : List JobRow) (j : JobRow) → find_first p l ≡ some j → p j ≡ true
find_first_passes p [] j e = cc
find_first_passes p (i ∷ l) j e = elim (Bool-cases (p i)) [
  | inl a ↦
      let same : some i ≡ some j = (rw a at e) in
      let here : i ≡ j = (cc) in subst (λ x. p x ≡ true) here a
  | inr a ↦ let rest = (rw a at e) in find_first_passes p l j rest
]

find_first_other :
    (p q : JobRow → Bool) (l : List JobRow) (j : JobRow)
    → find_first p l ≡ some j
    → q j ≡ true
    → (i : JobRow) × (find_first q l ≡ some i)
find_first_other p q [] j e h = cc
find_first_other p q (i ∷ l) j e h = elim (Bool-cases (q i)) [
  | inl b ↦ (i, rw b)
  | inr b ↦ elim (Bool-cases (p i)) [
    | inl a ↦
        let same : some i ≡ some j = (rw a at e) in
        let here : i ≡ j = (cc) in let bad = (rw here at b) in absurd (cc)
    | inr a ↦ let rest = (rw a at e) in let (k, f) = find_first_other p q l j rest h in (k, rw b f)
  ]
]

module _ (env : JdEnv) (now user_id : ℕ) where
  -- the tables of snapshots and the calls stay as they are, and the stored snapshot comes back
  abbrev pub Served : Snapshot → JdWorld → JobExtraction → JdWorld → Type 0
  Served cached w e v =
      (e.snapshot_id ≡ cached.id) × (v.snapshots ≡ w.snapshots) × (asked_of v ≡ asked_of w)

  bound_snapshots :
      (cached : Snapshot) (job : JobRow) (v : JdWorld)
      → (if not (is_bound_to cached.id job)
          then apply_snapshot now user_id job.id cached.id cached.content_hash v
          else v).snapshots
        ≡ v.snapshots
  unfolding apply_snapshot
  bound_snapshots cached job v =
      if_induction (λ (u : JdWorld). u.snapshots ≡ v.snapshots) (not (is_bound_to cached.id job))
        (apply_snapshot now user_id job.id cached.id cached.content_hash v) v (λ _. refl)
        (λ _. refl)

  serve_cached-Returns :
      (route : DoorRoute) (cached : Snapshot) (job : JobRow) (w : JdWorld)
      → find_job_by_url user_id route.url w ≡ some job
      → Returns (Served cached w) (serve_cached env now user_id "manual" route cached w)
  unfolding serve_cached get_or_create_for_user apply_snapshot
  serve_cached-Returns route cached job w e =
      bind-Leaves (λ _ v. v ≡ w) (Served cached w) (λ _. false ≡ true)
        (get_or_create_for_user now user_id route "manual" (text_or_empty "title" cached.payload)
          (text_or_empty "company" cached.payload))
        _ w
        (subst
          (λ o.
            Returns (λ _ v. v ≡ w)
              (job_or_new now user_id route "manual" (text_or_empty "title" cached.payload)
                (text_or_empty "company" cached.payload) o w))
          (sym e) refl)
        (λ (found_job, created) v same. (
          refl,
          if_induction (λ (u : JdWorld). u.snapshots ≡ w.snapshots) created _ _
              (λ _. bound_snapshots cached found_job v ∙ ap (λ (u : JdWorld). u.snapshots) same)
              (λ _. bound_snapshots cached found_job v ∙ ap (λ (u : JdWorld). u.snapshots) same),
          audited_calls created user_id found_job.id "job_discovered" _ _
              ∙ bound_calls now user_id cached found_job v
              ∙ ap asked_of same,
        ))

  -- the refresh reports a change and names the stored snapshot
  abbrev pub Reported : Snapshot → JdWorld → FreshnessResult → JdWorld → Type 0
  Reported cached w r v =
      (r ≡ record { state = "fresh"; snapshot_id = some cached.id; hash_changed = true })
      × (v.snapshots ≡ w.snapshots)
      × (asked_of v ≡ asked_of w)

  -- the page of the job has changed, and a snapshot is stored for its url
  refetched-Returns :
      (detail : JobDetail) (h : String) (cached : Snapshot) (job : JobRow) (w : JdWorld)
      → cache_enabled env ≡ true
      → find_snapshot_by_source_url (route_of env detail.job.url).url w ≡ some cached
      → find_job_by_url user_id (route_of env detail.job.url).url w ≡ some job
      → Returns (Reported cached w) (refetched env now user_id detail h w)
  unfolding extract_job
  refetched-Returns detail h cached job w on found_it here =
      let route = route_of env detail.job.url in
      bind-Leaves (Served cached w) (Reported cached w) (λ _. false ≡ true)
        (extract_job env now user_id "manual" detail.job.url) _ w
        (transaction-Leaves (Served cached w) (λ _. false ≡ true) (λ _. false ≡ true) rollback_jd
          (λ v.
            cached_or_fresh env now user_id "manual" route
              (cached_snapshot env now user_id "manual" route v) v)
          w
          (subst
            (λ b. Returns (Served cached w) (
              cached_or_fresh env now user_id "manual" route
                (if b then find_snapshot_by_source_url route.url w else none) w))
            (sym on)
            (subst
              (λ o. Returns (Served cached w) (cached_or_fresh env now user_id "manual" route o w))
              (sym found_it) (serve_cached-Returns route cached job w here)))
          (λ v bad. bad))
        (λ e v (i, t, k). (rw i, t, k))

-- the row behind a detail
joined_job :
    (snaps : List Snapshot) (o : Option JobRow) (d : JobDetail)
    → joined snaps o ≡ some d
    → o ≡ some d.job
joined_job snaps none d e = cc
joined_job snaps (some job) d e = go (snapshot_by_id job.current_snapshot_id snaps) e
  where
    go : (s : Option Snapshot) → some (with_snapshot job s) ≡ some d → some job ≡ some d.job
    go none h =
        let same : with_snapshot job none ≡ d = (cc) in ap (λ (x : JobDetail). some x.job) same
    go (some s) h =
        let same : with_snapshot job (some s) ≡ d = (cc) in ap (λ (x : JobDetail). some x.job) same

found_by_url :
    (user_id job_id : ℕ) (w : JdWorld) (d : JobDetail)
    → get_job_detail user_id job_id w ≡ some d
    → (job : JobRow) × (find_job_by_url user_id d.job.url w ≡ some job)
unfolding get_job_detail find_job_by_url
found_by_url user_id job_id w d e =
    let row = joined_job w.snapshots (find_first (has_id user_id job_id) w.jobs) d e in
    let mine : has_id user_id job_id d.job ≡ true =
      (find_first_passes (has_id user_id job_id) w.jobs d.job row) in
    find_first_other (has_id user_id job_id) (is_job_of user_id d.job.url) w.jobs d.job row
      (ground (arith, str_eq_refl d.job.url))

-- A refresh that finds the page of a job changed, while the cache is on and a snapshot of the job's
-- url is stored, extracts nothing: it returns that the content has changed and names the stored
-- snapshot, and it leaves the snapshots and the provider calls as they were. It is assumed that the
-- page answers below 400.
pub refresh_job_served :
    (env : JdEnv) (now user_id job_id : ℕ) (w : JdWorld) (detail : JobDetail)
    (result : FetchedResult) (cached : Snapshot)
    → get_job_detail user_id job_id w ≡ some detail
    → env.fetch (length w.feed.requests) detail.job.url ≡ fetched result
    → leb 400 result.status_code ≡ false
    → is_hash (hash_content env result.url result.body) detail.job.content_hash ≡ false
    → cache_enabled env ≡ true
    → find_snapshot_by_source_url detail.job.url w ≡ some cached
    → Returns (Reported env now user_id cached w) (refresh_job env now user_id job_id w)
unfolding refresh_job find_snapshot_by_source_url find_job_by_url
refresh_job_served env now user_id job_id w detail result cached d f below changed on stored =
    transaction-Leaves (Reported env now user_id cached w) (λ _. false ≡ true) (λ _. false ≡ true)
      rollback_jd (λ v. on_detail env now user_id (get_job_detail user_id job_id v) v) w
      (subst (λ o. Returns (Reported env now user_id cached w) (on_detail env now user_id o w))
        (sym d)
        (subst
          (λ a.
            Returns (Reported env now user_id cached w)
              (on_refetch env now user_id detail a logged))
          (sym f)
          (if_induction
            (λ (m : Exec JdWorld JdError FreshnessResult).
              Returns (Reported env now user_id cached w) (m logged))
            (leb 400 result.status_code)
            (went_stale env now user_id detail.job.id (str (env.http_reason result.status_code)))
            (compare_hash env now user_id detail (hash_content env result.url result.body))
            (λ e. absurd (cc))
            (λ _.
              if_induction
                (λ (m : Exec JdWorld JdError FreshnessResult).
                  Returns (Reported env now user_id cached w) (m logged))
                (is_hash (hash_content env result.url result.body) detail.job.content_hash) _
                (refetched env now user_id detail (hash_content env result.url result.body))
                (λ e. absurd (cc))
                (λ _.
                  let (job, here) = found_by_url user_id job_id w detail d in
                  let same = (classify_url-FitsJobs env.lower_name env.urlparse detail.job.url).0 in
                  refetched-Returns env now user_id detail (hash_content env result.url result.body)
                    cached job logged on
                    (subst (λ u. find_snapshot_by_source_url u w ≡ some cached) (sym same) stored)
                    (subst (λ u. find_job_by_url user_id u w ≡ some job) (sym same) here))))))
      (λ v bad. bad)
  where
    logged : JdWorld
    logged = record w { feed = record w.feed { requests = w.feed.requests ++ detail.job.url ∷ [] } }
