-- ===== src/Jd/Refresh.antt =====
-- `refresh_job` and the small operations on a job (backend/app/core_engine/jd_extractor.py).
pub mod Sound
pub mod Cached
use Prim.Native.String
use auto_apply.Common.{
  ℕ, ◌+◌, String, Bool, true, false, Option, none, some, length, leb, str_eq, if◌then◌else◌,
}
use auto_apply.Common.Exec.{Exec, pure, raise, modify, transaction, ◌>>=◌, ◌>>◌}
use auto_apply.Json.{Value, str, no_fields, field}
use auto_apply.Jd.Budget.{JdError, job_not_found}
use auto_apply.Jd.Schema.{DoorRoute}
use auto_apply.Jd.Env.{JdEnv, zoom, hash_content, fetched, fetch_raised, FetchAnswer}
use auto_apply.Jd.Store.{
  JdWorld, JobRow, JobDetail, get_job_detail, mark_freshness, touch_last_fetched,
  get_or_create_for_user, update_status, remove_job, audit, rollback_jd,
}
use auto_apply.Jd.Doors.{log_request}
use auto_apply.Jd.Extract.{extract_job}
use auto_apply.Llm.Router.Exhaust.{optional}

pub record FreshnessResult : Type 0 where
  pub state : String
  pub snapshot_id : Option ℕ
  pub hash_changed : Bool

abbrev pub unchanged_result : String → FreshnessResult
unchanged_result state = record { state = state; snapshot_id = none; hash_changed = false }

-- `new_hash == job.get("content_hash")`
abbrev pub is_hash : String → Option String → Bool
is_hash h none = false
is_hash h (some g) = str_eq h g

module _ (env : JdEnv) (now user_id : ℕ) where
  -- the page cannot be fetched any more
  abbrev pub went_stale : ℕ → Value → Exec JdWorld JdError FreshnessResult
  went_stale job_id reason = do
    modify (mark_freshness now user_id job_id "stale")
    modify (
        audit user_id "job_freshness_changed" job_id
          (field "state" (str "stale") (field "reason" reason no_fields)))
    pure (unchanged_result "stale")

  abbrev pub refetched : JobDetail → String → Exec JdWorld JdError FreshnessResult
  refetched detail new_hash = do
    result ← extract_job env now user_id "manual" detail.job.url
    modify (
        audit user_id "job_freshness_changed" detail.job.id (
          field "state" (str "fresh") (
            field "old_hash" (optional detail.job.content_hash)
              (field "new_hash" (str new_hash) no_fields))))
    pure (record { state = "fresh"; snapshot_id = some result.snapshot_id; hash_changed = true })

  abbrev pub compare_hash : JobDetail → String → Exec JdWorld JdError FreshnessResult
  compare_hash detail new_hash =
      if is_hash new_hash detail.job.content_hash
      then (do
        modify (touch_last_fetched now user_id detail.job.id)
        pure (unchanged_result "fresh"))
      else refetched detail new_hash

  abbrev pub on_refetch : JobDetail → FetchAnswer → Exec JdWorld JdError FreshnessResult
  on_refetch detail (fetch_raised e) = went_stale detail.job.id (str "fetch_failed")
  on_refetch detail (fetched result) =
      if leb 400 result.status_code
      then went_stale detail.job.id (str (env.http_reason result.status_code))
      else compare_hash detail (hash_content env result.url result.body)

  abbrev pub ask_page : JobDetail → Exec JdWorld JdError FreshnessResult
  ask_page detail w =
      (do
        zoom (λ (v : JdWorld). v.feed) (λ f v. record v { feed = f }) (log_request detail.job.url)
        on_refetch detail (env.fetch (length w.feed.requests) detail.job.url))
        w

  abbrev pub on_detail : Option JobDetail → Exec JdWorld JdError FreshnessResult
  on_detail none = raise job_not_found
  on_detail (some detail) = ask_page detail

  unfoldable pub refresh_job : ℕ → Exec JdWorld JdError FreshnessResult
  refresh_job job_id = transaction rollback_jd (λ w. on_detail (get_job_detail user_id job_id w) w)

module _ (now user_id : ℕ) where
  unfoldable pub get_or_create_job :
      String → Value → Value → String → String → Exec JdWorld JdError JobRow
  get_or_create_job url title company platform source =
      let route : DoorRoute = record {
        url = url;
        platform = platform;
        door = 2;
        slug = none;
        posting_id = none;
      } in
      transaction rollback_jd (do
        (job, created) ← get_or_create_for_user now user_id route source title company
        pure job)

  unfoldable pub update_job_status : ℕ → String → Exec JdWorld JdError Bool
  update_job_status job_id status =
      transaction rollback_jd (update_status now user_id job_id status)

  abbrev pub on_delete : ℕ → Option JobDetail → Exec JdWorld JdError Bool
  on_delete job_id none = pure false
  on_delete job_id (some detail) = do
    modify (remove_job user_id job_id)
    modify (audit user_id "job_rejected" job_id no_fields)
    pure true

  unfoldable pub delete_job : ℕ → Exec JdWorld JdError Bool
  delete_job job_id =
      transaction rollback_jd (λ w. on_delete job_id (get_job_detail user_id job_id w) w)

abbrev pub state_of : Option JobDetail → Option String
state_of none = none
state_of (some detail) = some detail.job.freshness_state

unfoldable pub get_freshness_state : ℕ → ℕ → JdWorld → Option String
get_freshness_state user_id job_id w = state_of (get_job_detail user_id job_id w)

-- six hours in microseconds
abbrev pub package_window : ℕ
package_window = 21600000000

-- the state, and whether an application is blocked
abbrev pub by_age : ℕ → JobRow → Option ℕ → String × Bool
by_age now job none = ("stale", true)
by_age now job (some last) =
    if leb now (last + package_window) then ("ok(<6h)", false) else (job.freshness_state, true)

abbrev pub by_freshness : ℕ → Option JobDetail → String × Bool
by_freshness now none = ("stale", true)
by_freshness now (some detail) =
    if str_eq detail.job.freshness_state "expired"
    then ("expired", true)
    else if str_eq detail.job.freshness_state "stale"
    then ("stale", true)
    else by_age now detail.job detail.job.last_fetched_at

unfoldable pub freshness_for_package : ℕ → ℕ → ℕ → JdWorld → String × Bool
freshness_for_package now user_id job_id w = by_freshness now (get_job_detail user_id job_id w)
