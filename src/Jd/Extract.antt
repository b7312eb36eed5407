-- ===== src/Jd/Extract.antt =====
-- `extract_job` (backend/app/core_engine/jd_extractor.py): the cached snapshot of a url, or the doors,
-- the gates and the rows that are written. `now` is the transaction's time.
pub mod Sound
pub mod Quiet
pub mod Calls
use auto_apply.Common.{
  ℕ, ◌==◌, String, Bool, true, false, not, Option, none, some, List, [], ◌∷◌, Text, ltb,
  if◌then◌else◌,
}
use auto_apply.Common.Exec.{Exec, Outcome, ok, err, pure, raise, modify, transaction, ◌>>=◌, ◌>>◌}
use auto_apply.Json.{
  Value, null, bool, str, arr, obj, Fields, no_fields, field, Items, no_items, item, get, set,
  take_fields, truthy, from_names,
}
use auto_apply.Jd.Budget.{
  BudgetTracker, JdError, uncaught, not_a_posting, validation_failed, new_budget,
}
use auto_apply.Jd.Schema.{DoorRoute, other_max_keys, current_schema_version, is_plausible_posting}
use auto_apply.Jd.Env.{route_of, JdEnv, Run, zoom, cache_enabled, hash_content}
use auto_apply.Jd.Store.{
  JdWorld, Feed, JobRow, Snapshot, find_snapshot_by_source_url, get_or_create_for_user,
  apply_snapshot, upsert_snapshot, audit, rollback_jd,
}
use auto_apply.Jd.Doors.{Page, find_page, is_blank_text, html_or_empty}
use auto_apply.Jd.Section.{int_value}
use auto_apply.Jd.Ask.{Trace, ask_models}

pub record JobExtraction : Type 0 where
  pub job : JobRow
  pub snapshot_id : ℕ
  pub payload : Fields
  pub raw_text : Option Text
  pub extracted_via_door : Value
  pub cache_hit : Bool
  pub fetch_engine : Value

abbrev pub value_or : Option Value → Value → Value
value_or none d = d
value_or (some v) d = v

-- `payload.get("_meta", {}).get(key, default)`
abbrev pub meta_or : String → Value → Fields → Value
meta_or key d payload = elim (get "_meta" payload) [
  | some (obj meta) ↦ value_or (get key meta) d
  | _ ↦ d
]

-- `payload.get(key) or ""`
abbrev pub text_or_empty : String → Fields → Value
text_or_empty key payload = elim (get key payload) [
  | none ↦ str ""
  | some v ↦ if truthy v then v else str ""
]

abbrev pub is_bound_to : ℕ → JobRow → Bool
is_bound_to snapshot_id job = elim job.current_snapshot_id [
  | none ↦ false
  | some i ↦ i == snapshot_id
]

abbrev pub when : Bool → (JdWorld → JdWorld) → Exec JdWorld JdError Unit
when b f = modify (λ w. if b then f w else w)

-- what the doors leave to the gates
pub record Gathered : Type 0 where
  pub page : Page
  pub fields : Fields
  pub budget : BudgetTracker
  pub trace : Trace

abbrev pub setdefault : String → Value → Fields → Fields
setdefault key v fs = elim (get key fs) [ none ↦ set key v fs | some w ↦ fs ]

-- `if payload.get("other"): …`; `none` is the AttributeError of `items`
abbrev pub cap_other : Fields → Option Fields
cap_other fs = elim (get "other" fs) [
  | none ↦ some fs
  | some (obj other) ↦ some (set "other" (obj (take_fields other_max_keys other)) fs)
  | some v ↦ if truthy v then none else some fs
]

abbrev pub via_door : Gathered → ℕ
via_door g =
    if ltb 0 g.budget.call_count
    then 4
    else if not (is_blank_text (html_or_empty g.page.html))
    then 3
    else if g.page.was_fetched
    then 2
    else 1

abbrev pub meta_of : Gathered → Value
meta_of g = obj (
    field "schema_version" (int_value current_schema_version) (
      field "extracted_via_door" (int_value (via_door g)) (
        field "source_url" (str g.page.final_url) (
          field "fetch_engine" (str g.page.engine) (
            field "extraction_tokens" (int_value g.budget.used_tokens)
              (field "confidence" null no_fields))))))

unfoldable pub build_payload : Gathered → Option Fields
build_payload g =
    elim (cap_other
      (setdefault "other" (obj no_fields) (setdefault "good_to_have" (arr no_items) g.fields))) [
        | none ↦ none
        | some fs ↦ some (set "_meta" (meta_of g) fs)
      ]

abbrev pub body_or_empty : Option (List ℕ) → List ℕ
body_or_empty none = []
body_or_empty (some b) = b

abbrev pub items_of : List Value → Items
items_of [] = no_items
items_of (v ∷ vs) = item v (items_of vs)

abbrev pub extracted_details : ℕ → Gathered → Fields
extracted_details snapshot_id g = field "snapshot_id" (int_value snapshot_id) (
    field "extracted_via_door" (int_value (via_door g)) (
      field "cache_hit" (bool false) (
        field "door4_sections" (arr (items_of g.trace.sections)) (
          field "door4_gaps" (arr (from_names g.trace.gaps))
            (field "extraction_tokens" (int_value g.budget.used_tokens) no_fields)))))

module _ (env : JdEnv) (now user_id : ℕ) (source : String) where
  unfoldable pub serve_cached : DoorRoute → Snapshot → Exec JdWorld JdError JobExtraction
  serve_cached route cached = do
    (job, created) ←
        get_or_create_for_user now user_id route source (text_or_empty "title" cached.payload)
          (text_or_empty "company" cached.payload)
    when (not (is_bound_to cached.id job))
        (apply_snapshot now user_id job.id cached.id cached.content_hash)
    when created (
        audit user_id "job_discovered" job.id
          (field "url" (str route.url) (field "cache_hit" (bool true) no_fields)))
    pure (record {
      job = job;
      snapshot_id = cached.id;
      payload = cached.payload;
      raw_text = cached.raw_text;
      extracted_via_door = meta_or "extracted_via_door" (int_value 4) cached.payload;
      cache_hit = true;
      fetch_engine = meta_or "fetch_engine" (str "httpx") cached.payload;
    })

  abbrev pub new_run : Feed → Page → Run
  new_run f page = record {
    llm = f.llm;
    budget = new_budget env.token_budget;
    accumulator = page.accumulator;
  }

  -- the last two doors, whose budget and accumulator are the extraction's own
  abbrev pub asked : Feed → Page → Outcome JdError Trace × Run → Outcome JdError Gathered × Feed
  asked f page (err e, r) = (err e, record f { llm = r.llm })
  asked f page (ok t, r) = (
    ok (record { page = page; fields = r.accumulator; budget = r.budget; trace = t }),
    record f { llm = r.llm },
  )

  unfoldable pub ask_about : DoorRoute → Page → Exec Feed JdError Gathered
  ask_about route page f =
      asked f page (ask_models env user_id route.url page.cleaned_text (new_run f page))

  unfoldable pub run_doors : DoorRoute → Exec Feed JdError Gathered
  run_doors route = do page ← find_page env route; ask_about route page

  unfoldable pub persist : DoorRoute → Gathered → Fields → Exec JdWorld JdError JobExtraction
  persist route g payload =
      let h = hash_content env g.page.final_url (body_or_empty g.page.hash_body) in
      (do
        snapshot_id ← upsert_snapshot now h payload (some g.page.cleaned_text)
        (job, created) ←
            get_or_create_for_user now user_id route source (text_or_empty "title" payload)
              (text_or_empty "company" payload)
        modify (apply_snapshot now user_id job.id snapshot_id h)
        when created (
            audit user_id "job_discovered" job.id
              (field "url" (str route.url) (field "platform" (str route.platform) no_fields)))
        modify (audit user_id "job_extracted" job.id (extracted_details snapshot_id g))
        pure (record {
          job = job;
          snapshot_id = snapshot_id;
          payload = payload;
          raw_text = some g.page.cleaned_text;
          extracted_via_door = int_value (via_door g);
          cache_hit = false;
          fetch_engine = str g.page.engine;
        }))

  abbrev pub pass_gate :
      DoorRoute → Gathered → Fields → Option Bool → Exec JdWorld JdError JobExtraction
  pass_gate route g payload none = raise (uncaught "AttributeError")
  pass_gate route g payload (some false) = raise not_a_posting
  pass_gate route g payload (some true) = persist route g payload

  abbrev pub finish_payload :
      DoorRoute → Gathered → Option Fields → Exec JdWorld JdError JobExtraction
  finish_payload route g none = raise (uncaught "AttributeError")
  finish_payload route g (some payload) =
      if env.validates payload
      then pass_gate route g payload (is_plausible_posting payload g.page.jsonld_found)
      else raise validation_failed

  -- the schema check, the plausibility pass_gate, and the rows
  unfoldable pub finish_extraction : DoorRoute → Gathered → Exec JdWorld JdError JobExtraction
  finish_extraction route g = finish_payload route g (build_payload g)

  unfoldable pub extract_fresh : DoorRoute → Exec JdWorld JdError JobExtraction
  extract_fresh route = do
    g ← zoom (λ (w : JdWorld). w.feed) (λ f w. record w { feed = f }) (run_doors route)
    finish_extraction route g

  abbrev pub cached_or_fresh : DoorRoute → Option Snapshot → Exec JdWorld JdError JobExtraction
  cached_or_fresh route (some cached) = serve_cached route cached
  cached_or_fresh route none = extract_fresh route

  abbrev pub cached_snapshot : DoorRoute → JdWorld → Option Snapshot
  cached_snapshot route w =
      if cache_enabled env then find_snapshot_by_source_url route.url w else none

  unfoldable pub extract_job : String → Exec JdWorld JdError JobExtraction
  extract_job url =
      let route = route_of env url in
      transaction rollback_jd (λ w. cached_or_fresh route (cached_snapshot route w) w)
