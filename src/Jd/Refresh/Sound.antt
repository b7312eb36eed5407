-- ===== src/Jd/Refresh/Sound.antt =====
-- Sequences of operations on jobs, as steps between worlds, and the consistency of the tables
-- (backend/app/core_engine/jd_extractor.py).
use auto_apply.Common.{ℕ, refl, String, Bool, Option, none, some, if_induction, leb, one_of, length}
use auto_apply.Common.Exec.{
  Exec, Outcome, ok, err, Leaves, bind-Leaves, transaction-Leaves, settle, pure, ◌>>=◌,
}
use auto_apply.Json.{Value, str}
use auto_apply.Jd.Budget.{JdError, uncaught}
use auto_apply.Jd.Schema.{DoorRoute}
use auto_apply.Jd.Env.{JdEnv, FetchAnswer, fetched, fetch_raised, hash_content}
use auto_apply.Jd.Store.{
  JdWorld, JobDetail, get_job_detail, get_or_create_for_user, update_status, valid_job_statuses,
  rollback_jd,
}
use auto_apply.Jd.Store.Unique.{IsConsistent, keep-ConsistentRows, update_job-IsConsistent}
use auto_apply.Jd.Keeps.{
  get_or_create_for_user-Leaves, Created, mark_freshness-IsConsistent,
  touch_last_fetched-IsConsistent,
}
use auto_apply.Jd.Extract.{extract_job}
use auto_apply.Jd.Extract.Sound.{extract_job-Leaves}
use auto_apply.Jd.Refresh.{
  FreshnessResult, refresh_job, on_detail, on_refetch, compare_hash, refetched, went_stale, is_hash,
  get_or_create_job, update_job_status, delete_job, on_delete,
}

abbrev KeepsAll : {A : Type 0} → Outcome JdError A × JdWorld → Type 0
KeepsAll = Leaves (λ _ w. IsConsistent w) IsConsistent

kept : {A : Type 0} (o : Outcome JdError A) (w : JdWorld) → KeepsAll (o, w) → IsConsistent w
kept (ok a) w h = h
kept (err e) w h = h

module _ (env : JdEnv) (now user_id : ℕ) where
  went_stale-Leaves :
      (job_id : ℕ) (reason : Value) (w : JdWorld)
      → IsConsistent w
      → KeepsAll (went_stale env now user_id job_id reason w)
  went_stale-Leaves job_id reason w c = mark_freshness-IsConsistent now user_id job_id "stale" w c

  refetched-Leaves :
      (detail : JobDetail) (h : String) (w : JdWorld)
      → IsConsistent w
      → KeepsAll (refetched env now user_id detail h w)
  refetched-Leaves detail h w c =
      bind-Leaves (λ _ v. IsConsistent v) (λ _ v. IsConsistent v) IsConsistent
        (extract_job env now user_id "manual" detail.job.url) _ w
        (extract_job-Leaves env now user_id "manual" detail.job.url w c) (λ result v d. d)

  compare_hash-Leaves :
      (detail : JobDetail) (h : String) (w : JdWorld)
      → IsConsistent w
      → KeepsAll (compare_hash env now user_id detail h w)
  compare_hash-Leaves detail h w c =
      if_induction (λ (m : Exec JdWorld JdError FreshnessResult). KeepsAll (m w))
        (is_hash h detail.job.content_hash) _ (refetched env now user_id detail h)
        (λ _. touch_last_fetched-IsConsistent now user_id detail.job.id w c)
        (λ _. refetched-Leaves detail h w c)

  on_refetch-Leaves :
      (detail : JobDetail) (answer : FetchAnswer) (w : JdWorld)
      → IsConsistent w
      → KeepsAll (on_refetch env now user_id detail answer w)
  on_refetch-Leaves detail (fetch_raised e) w c =
      went_stale-Leaves detail.job.id (str "fetch_failed") w c
  on_refetch-Leaves detail (fetched result) w c =
      if_induction (λ (m : Exec JdWorld JdError FreshnessResult). KeepsAll (m w))
        (leb 400 result.status_code)
        (went_stale env now user_id detail.job.id (str (env.http_reason result.status_code)))
        (compare_hash env now user_id detail (hash_content env result.url result.body))
        (λ _. went_stale-Leaves detail.job.id (str (env.http_reason result.status_code)) w c)
        (λ _. compare_hash-Leaves detail (hash_content env result.url result.body) w c)

  refresh_job-Leaves :
      (job_id : ℕ) (w : JdWorld) → IsConsistent w → KeepsAll (refresh_job env now user_id job_id w)
  unfolding refresh_job
  refresh_job-Leaves job_id w c =
      transaction-Leaves (λ _ v. IsConsistent v) IsConsistent IsConsistent rollback_jd
        (λ v. on_detail env now user_id (get_job_detail user_id job_id v) v) w
        (go (get_job_detail user_id job_id w)) (λ v d. c)
    where
      go : (o : Option JobDetail) → KeepsAll (on_detail env now user_id o w)
      go none = c
      go (some detail) =
          on_refetch-Leaves detail (env.fetch (length w.feed.requests) detail.job.url) _ c

module _ (now user_id : ℕ) where
  get_or_create_job-Leaves :
      (url : String) (title company : Value) (platform source : String) (w : JdWorld)
      → IsConsistent w
      → KeepsAll (get_or_create_job now user_id url title company platform source w)
  unfolding get_or_create_job
  get_or_create_job-Leaves url title company platform source w c =
      let route : DoorRoute = record {
        url = url;
        platform = platform;
        door = 2;
        slug = none;
        posting_id = none;
      } in
      transaction-Leaves (λ _ v. IsConsistent v) IsConsistent IsConsistent rollback_jd
        (get_or_create_for_user now user_id route source title company >>= λ jc. pure jc.0) w
        (bind-Leaves (Created now user_id w.snapshots) (λ _ v. IsConsistent v) IsConsistent
          (get_or_create_for_user now user_id route source title company) (λ jc. pure jc.0) w
          (get_or_create_for_user-Leaves now user_id route source title company w c)
          (λ jc v (d, e). d))
        (λ v d. c)

  update_job_status-Leaves :
      (job_id : ℕ) (status : String) (w : JdWorld)
      → IsConsistent w
      → KeepsAll (update_job_status now user_id job_id status w)
  unfolding update_job_status update_status
  update_job_status-Leaves job_id status w c =
      if_induction (λ (o : Outcome JdError Bool × JdWorld). KeepsAll (settle rollback_jd w o))
        (one_of status valid_job_statuses) _ (err (uncaught "ValueError"), w)
        (λ _.
          update_job-IsConsistent now user_id job_id (λ j. record j { status = status }) w
            (λ j. (refl, refl)) (λ j b. b) c)
        (λ _. c)

  delete_job-Leaves :
      (job_id : ℕ) (w : JdWorld) → IsConsistent w → KeepsAll (delete_job now user_id job_id w)
  unfolding delete_job
  delete_job-Leaves job_id w c =
      transaction-Leaves (λ _ v. IsConsistent v) IsConsistent IsConsistent rollback_jd
        (λ v. on_delete now user_id job_id (get_job_detail user_id job_id v) v) w
        (go (get_job_detail user_id job_id w)) (λ v d. c)
    where
      go : (o : Option JobDetail) → KeepsAll (on_delete now user_id job_id o w)
      go none = c
      go (some detail) = keep-ConsistentRows _ w.jobs w.snapshots c

-- one operation on the jobs, of any user and against any web, whether it returns or raises
pub data JdStep : JdWorld → JdWorld → Type 0 where
  extracted :
      (env : JdEnv) (now user_id : ℕ) (source url : String) (w : JdWorld)
      → JdStep w (extract_job env now user_id source url w).1
  refreshed :
      (env : JdEnv) (now user_id job_id : ℕ) (w : JdWorld)
      → JdStep w (refresh_job env now user_id job_id w).1
  got_or_created :
      (now user_id : ℕ) (url : String) (title company : Value) (platform source : String)
      (w : JdWorld)
      → JdStep w (get_or_create_job now user_id url title company platform source w).1
  status_updated :
      (now user_id job_id : ℕ) (status : String) (w : JdWorld)
      → JdStep w (update_job_status now user_id job_id status w).1
  deleted : (now user_id job_id : ℕ) (w : JdWorld) → JdStep w (delete_job now user_id job_id w).1

pub data JdHistory (w : JdWorld) : JdWorld → Type 0 where
  begin : JdHistory w w
  after : {u v : JdWorld} → JdHistory w u → JdStep u v → JdHistory w v

step-IsConsistent : {u v : JdWorld} → JdStep u v → IsConsistent u → IsConsistent v
step-IsConsistent (extracted env now user_id source url w) c =
    kept _ _ (extract_job-Leaves env now user_id source url w c)
step-IsConsistent (refreshed env now user_id job_id w) c =
    kept _ _ (refresh_job-Leaves env now user_id job_id w c)
step-IsConsistent (got_or_created now user_id url title company platform source w) c =
    kept _ _ (get_or_create_job-Leaves now user_id url title company platform source w c)
step-IsConsistent (status_updated now user_id job_id status w) c =
    kept _ _ (update_job_status-Leaves now user_id job_id status w c)
step-IsConsistent (deleted now user_id job_id w) c =
    kept _ _ (delete_job-Leaves now user_id job_id w c)

-- After any operations on the jobs, by any users and whatever pages and models answer, also where
-- they raise, the tables are consistent if they were before: no two snapshots have the same content
-- hash, no two jobs of a user have the same url, and the snapshot id and the content hash of a job
-- are those of one stored snapshot, or both are missing.
pub history-IsConsistent : {w v : JdWorld} → JdHistory w v → IsConsistent w → IsConsistent v
history-IsConsistent begin c = c
history-IsConsistent (after h s) c = step-IsConsistent s (history-IsConsistent h c)
