-- ===== src/Jd/Store.antt =====
-- The jobs, the shared snapshots and their repository
-- (backend/app/db/repositories/core_engine_repository.py), with the audit helper of
-- backend/app/core_engine/jd_extractor.py. New rows stand first. Ids are numbers from one counter,
-- times are microseconds, and every update of a job stamps `updated_at`, as a trigger of the table does.
pub mod Unique
use auto_apply.Common.{
  ℕ, suc, ◌==◌, String, Bool, true, false, not, ◌&&◌, Option, none, some, List, [], ◌∷◌, str_eq,
  text_eq, codes, Text, leb, keep, find_first, any_of, one_of, map, if◌then◌else◌, is_some,
}
use auto_apply.Common.Sort.{sort_by}
use auto_apply.Common.Exec.{Exec, ok, err, pure, raise, gets, modify, ◌>>=◌, ◌>>◌}
use auto_apply.Json.{Value, str, text_of, obj, Fields, get, truthy}
use auto_apply.Llm.Store.{World, insert_audit as insert_audit_row, rollback as rollback_llm}
use auto_apply.Jd.Budget.{JdError, uncaught}
use auto_apply.Jd.Schema.{DoorRoute}

pub record JobRow : Type 0 where
  pub id : ℕ
  pub user_id : ℕ
  pub title : Value
  pub company : Value
  pub url : String
  pub platform : String
  pub source : String
  pub status : String
  pub score : Option ℕ
  pub raw_message : Option String
  pub freshness_state : String
  pub content_hash : Option String
  pub current_snapshot_id : Option ℕ
  pub last_fetched_at : Option ℕ
  pub created_at : ℕ
  pub updated_at : ℕ

pub record Snapshot : Type 0 where
  pub id : ℕ
  pub content_hash : String
  pub payload : Fields
  pub raw_text : Option Text
  pub captured_at : ℕ

-- what the doors touch: the router's world, and the log of the pages that were asked for
pub record Feed : Type 0 where
  pub llm : World
  pub requests : List String

pub record JdWorld : Type 0 where
  pub feed : Feed
  pub jobs : List JobRow
  pub snapshots : List Snapshot
  pub next_id : ℕ

-- A rollback restores every table; what was sent stays sent.
abbrev pub rollback_feed : Feed → Feed → Feed
rollback_feed before after = record after { llm = rollback_llm before.llm after.llm }

abbrev pub rollback_jd : JdWorld → JdWorld → JdWorld
rollback_jd before after = record before { feed = rollback_feed before.feed after.feed }

-- the first snapshot with the hash: there is one at most
abbrev pub find_snapshot : String → List Snapshot → Option Snapshot
find_snapshot content_hash = find_first (λ s. str_eq s.content_hash content_hash)

abbrev pub snapshot_row : ℕ → ℕ → String → Fields → Option Text → Snapshot
snapshot_row id now content_hash payload raw_text = record {
  id = id;
  content_hash = content_hash;
  payload = payload;
  raw_text = raw_text;
  captured_at = now;
}

-- the row that the conflict names, or the one that is inserted
abbrev pub stored_or_new :
    ℕ → String → Fields → Option Text → Option Snapshot → Exec JdWorld JdError ℕ
stored_or_new now content_hash payload raw_text (some s) w = (ok s.id, w)
stored_or_new now content_hash payload raw_text none w = (
  ok w.next_id,
  record w {
    snapshots = snapshot_row w.next_id now content_hash payload raw_text ∷ w.snapshots;
    next_id = suc w.next_id;
  },
)

-- `INSERT … ON CONFLICT (content_hash) DO NOTHING RETURNING id`, else the id by SELECT
unfoldable pub upsert_snapshot : ℕ → String → Fields → Option Text → Exec JdWorld JdError ℕ
upsert_snapshot now content_hash payload raw_text w =
    stored_or_new now content_hash payload raw_text (find_snapshot content_hash w.snapshots) w

-- `value = %s` on what `->>` gives
abbrev pub is_text : String → Option Value → Bool
is_text s (some (str t)) = str_eq t s
is_text s (some (text_of t)) = text_eq t (codes s)
is_text s _ = false

-- `payload->'_meta'->>key = value`
abbrev pub meta_is : String → String → Fields → Bool
meta_is key value payload = elim (get "_meta" payload) [
  | some (obj meta) ↦ is_text value (get key meta)
  | _ ↦ false
]

abbrev pub head_of : List Snapshot → Option Snapshot
head_of [] = none
head_of (s ∷ l) = some s

unfoldable pub find_snapshot_by_source_url : String → JdWorld → Option Snapshot
find_snapshot_by_source_url url w = head_of (
    sort_by (λ s t. leb t.captured_at s.captured_at)
      (keep (λ s. meta_is "source_url" url s.payload) w.snapshots))

abbrev pub is_job_of : ℕ → String → JobRow → Bool
is_job_of user_id url j = j.user_id == user_id && str_eq j.url url

unfoldable pub find_job_by_url : ℕ → String → JdWorld → Option JobRow
find_job_by_url user_id url w = find_first (is_job_of user_id url) w.jobs

abbrev pub valid_platforms : List String
valid_platforms = "greenhouse" ∷ "lever" ∷ "linkedin" ∷ "indeed" ∷ "workday" ∷ "generic" ∷ []

abbrev pub valid_sources : List String
valid_sources = "telegram" ∷ "discord" ∷ "manual" ∷ []

abbrev pub valid_job_statuses : List String
valid_job_statuses =
    "discovered" ∷ "scored" ∷ "approved" ∷ "applying" ∷ "applied" ∷ "rejected" ∷ "skipped"
    ∷ "failed" ∷ []

-- the row that an INSERT of the given columns makes
abbrev pub fresh_job : ℕ → ℕ → ℕ → DoorRoute → String → Value → Value → JobRow
fresh_job id now user_id route source title company = record {
  id = id;
  user_id = user_id;
  title = title;
  company = company;
  url = route.url;
  platform = route.platform;
  source = source;
  status = "discovered";
  score = none;
  raw_message = none;
  freshness_state = "fresh";
  content_hash = none;
  current_snapshot_id = none;
  last_fetched_at = none;
  created_at = now;
  updated_at = now;
}

-- the constraints of the table: the platform, the source, and one row for a user and a url
unfoldable pub insert_job : ℕ → ℕ → DoorRoute → String → Value → Value → Exec JdWorld JdError Unit
unfolding find_job_by_url
insert_job now user_id route source title company w =
    if not (one_of route.platform valid_platforms && one_of source valid_sources)
    then (err (uncaught "CheckViolation"), w)
    else if is_some (find_job_by_url user_id route.url w)
    then (err (uncaught "UniqueViolation"), w)
    else (
      ok tt,
      record w {
        jobs = fresh_job w.next_id now user_id route source title company ∷ w.jobs;
        next_id = suc w.next_id;
      },
    )

-- `value or "(unextracted)"`
abbrev pub or_unextracted : Value → Value
or_unextracted v = if truthy v then v else str "(unextracted)"

-- what `find_job_by_url` gives behind the INSERT
abbrev pub created_row : Option JobRow → Exec JdWorld JdError (JobRow × Bool)
created_row none = raise (uncaught "AssertionError")
created_row (some job) = pure (job, true)

abbrev pub job_or_new :
    ℕ
    → ℕ
    → DoorRoute
    → String
    → Value
    → Value
    → Option JobRow
    → Exec JdWorld JdError (JobRow × Bool)
job_or_new now user_id route source title company (some job) = pure (job, false)
job_or_new now user_id route source title company none = do
  insert_job now user_id route source (or_unextracted title) (or_unextracted company)
  job ← gets (find_job_by_url user_id route.url)
  created_row job

unfoldable pub get_or_create_for_user :
    ℕ → ℕ → DoorRoute → String → Value → Value → Exec JdWorld JdError (JobRow × Bool)
get_or_create_for_user now user_id route source title company w =
    job_or_new now user_id route source title company (find_job_by_url user_id route.url w) w

-- an UPDATE of one job of the user, row by row
abbrev pub update_row : ℕ → ℕ → ℕ → (JobRow → JobRow) → JobRow → JobRow
update_row now user_id job_id f j =
    if j.user_id == user_id && j.id == job_id then record (f j) { updated_at = now } else j

abbrev pub update_jobs : ℕ → ℕ → ℕ → (JobRow → JobRow) → List JobRow → List JobRow
update_jobs now user_id job_id f = map (update_row now user_id job_id f)

abbrev pub update_job : ℕ → ℕ → ℕ → (JobRow → JobRow) → JdWorld → JdWorld
update_job now user_id job_id f w = record w { jobs = update_jobs now user_id job_id f w.jobs }

abbrev pub bind_snapshot : ℕ → ℕ → String → JobRow → JobRow
bind_snapshot now snapshot_id content_hash j = record j {
  current_snapshot_id = some snapshot_id;
  content_hash = some content_hash;
  freshness_state = "fresh";
  last_fetched_at = some now;
}

unfoldable pub apply_snapshot : ℕ → ℕ → ℕ → ℕ → String → JdWorld → JdWorld
apply_snapshot now user_id job_id snapshot_id content_hash =
    update_job now user_id job_id (bind_snapshot now snapshot_id content_hash)

unfoldable pub mark_freshness : ℕ → ℕ → ℕ → String → JdWorld → JdWorld
mark_freshness now user_id job_id state =
    update_job now user_id job_id (λ j. record j { freshness_state = state })

unfoldable pub touch_last_fetched : ℕ → ℕ → ℕ → JdWorld → JdWorld
touch_last_fetched now user_id job_id =
    update_job now user_id job_id (λ j. record j { last_fetched_at = some now })

-- the LEFT JOIN of `get_job_detail`
pub record JobDetail : Type 0 where
  pub job : JobRow
  pub raw_text : Option Text
  pub payload : Option Fields

abbrev pub snapshot_by_id : Option ℕ → List Snapshot → Option Snapshot
snapshot_by_id none snaps = none
snapshot_by_id (some id) snaps = find_first (λ s. s.id == id) snaps

abbrev pub with_snapshot : JobRow → Option Snapshot → JobDetail
with_snapshot job none = record { job = job; raw_text = none; payload = none }
with_snapshot job (some s) = record { job = job; raw_text = s.raw_text; payload = some s.payload }

abbrev pub joined : List Snapshot → Option JobRow → Option JobDetail
joined snaps none = none
joined snaps (some job) = some (with_snapshot job (snapshot_by_id job.current_snapshot_id snaps))

abbrev pub has_id : ℕ → ℕ → JobRow → Bool
has_id user_id job_id j = j.user_id == user_id && j.id == job_id

unfoldable pub get_job_detail : ℕ → ℕ → JdWorld → Option JobDetail
get_job_detail user_id job_id w = joined w.snapshots (find_first (has_id user_id job_id) w.jobs)

abbrev pub has_job : ℕ → ℕ → JdWorld → Bool
has_job user_id job_id w = any_of (has_id user_id job_id) w.jobs

unfoldable pub update_status : ℕ → ℕ → ℕ → String → Exec JdWorld JdError Bool
update_status now user_id job_id status w =
    if one_of status valid_job_statuses
    then (do
      modify (update_job now user_id job_id (λ j. record j { status = status }))
      pure (has_job user_id job_id w))
        w
    else raise (uncaught "ValueError") w

abbrev pub remove_job : ℕ → ℕ → JdWorld → JdWorld
remove_job user_id job_id w = record w { jobs = keep (λ j. not (has_id user_id job_id j)) w.jobs }

-- `_audit`
abbrev pub audit : ℕ → String → ℕ → Fields → JdWorld → JdWorld
audit user_id action resource_id details w = record w {
  feed = record w.feed {
    llm =
        insert_audit_row
          (record {
            user_id = user_id;
            action = action;
            resource_type = "job";
            resource_id = some resource_id;
            details = obj details;
            ip_address = none;
          })
          w.feed.llm;
  };
}
