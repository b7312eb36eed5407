-- ===== src/Jd/Doors.antt =====
-- The doors of `extract_job` (backend/app/core_engine/jd_extractor.py): the first three find a page
-- and its fields, the fourth asks a model for each section, the fifth for what is still missing; and
-- the signal of an empty shell (looks_like_js_shell, backend/app/core_engine/jd_doors.py).
pub mod Silent
use auto_apply.Common.{
  ℕ, ◌+◌, String, Bool, true, false, not, ◌&&◌, ◌||◌, Option, none, some, List, [], ◌∷◌, ◌++◌, Text,
  ltb, leb, codes, str_eq, length, any_of, if◌then◌else◌, ◌==◌,
}
use auto_apply.Common.Search.{contains}
use auto_apply.Common.Exec.{Exec, pure, raise, modify, ◌>>=◌, ◌>>◌}
use auto_apply.Json.{Value, null, Fields, no_fields, field, get, set}
use auto_apply.Llm.JsonText.{strip}
use auto_apply.Jd.Budget.{JdError, uncaught, job_not_found, fetch_failed}
use auto_apply.Jd.Schema.{DoorRoute, gaps_for}
use auto_apply.Jd.Env.{
  JdEnv, FetchedResult, fetched, fetch_raised, FetchAnswer, RenderAnswer, rendered, Door1Answer,
  door1_result, door1_failed, door1_raised,
}
use auto_apply.Jd.Store.{Feed}

-- the variables of `extract_job` that the first doors set
pub record Page : Type 0 where
  pub accumulator : Fields
  pub html : Option Text
  pub hash_body : Option (List ℕ)
  pub engine : String
  pub final_url : String
  pub jsonld_found : Bool
  pub was_fetched : Bool
  pub cleaned_text : Text

abbrev pub empty_page : DoorRoute → Page
empty_page route = record {
  accumulator = no_fields;
  html = none;
  hash_body = none;
  engine = "httpx";
  final_url = route.url;
  jsonld_found = false;
  was_fetched = false;
  cleaned_text = [];
}

abbrev pub is_null : Value → Bool
is_null null = true
is_null _ = false

-- `accumulator.get(key) is None`
abbrev pub is_open : String → Fields → Bool
is_open key fs = elim (get key fs) [ none ↦ true | some v ↦ is_null v ]

-- the first door's loop
abbrev pub fill : Fields → Fields → Fields
fill no_fields acc = acc
fill (field key value rest) acc = fill rest (if is_null value then acc else set key value acc)

-- what JSON-LD gives to a key that is still open
abbrev pub fill_open : String → Value → Fields → Fields
fill_open key value acc = if not (is_null value) && is_open key acc then set key value acc else acc

-- `not text`
abbrev pub is_blank_text : Text → Bool
is_blank_text [] = true
is_blank_text (c ∷ t) = false

abbrev pub html_or_empty : Option Text → Text
html_or_empty none = []
html_or_empty (some t) = t

abbrev pub has_fields : Fields → Bool
has_fields no_fields = false
has_fields (field k v fs) = true

abbrev pub is_missing : List String → Bool
is_missing [] = false
is_missing (m ∷ ms) = true

abbrev pub mount_markers : List Text
mount_markers =
    codes "id=\"root\""
    ∷ codes "id='root'"
    ∷ codes "id=\"app\""
    ∷ codes "id='app'"
    ∷ codes "<noscript>"
    ∷ []

unfoldable pub looks_like_js_shell : Text → Text → Bool
looks_like_js_shell text html =
    let size = length (strip text) in
    if ltb 1000 size then false else any_of (λ m. contains m html) mount_markers && ltb size 500

-- `gaps_for`, which may raise
abbrev pub gaps_or_raise : {S : Type 0} → Option (List String) → Exec S JdError (List String)
gaps_or_raise none = raise (uncaught "AttributeError")
gaps_or_raise (some missing) = pure missing

abbrev pub missing_criticals : {S : Type 0} → Fields → Exec S JdError (List String)
missing_criticals fs = gaps_or_raise (gaps_for fs)

abbrev pub log_request : String → Exec Feed JdError Unit
log_request url = modify (λ f. record f { requests = f.requests ++ url ∷ [] })

module _ (env : JdEnv) where
  abbrev pub after_door1 : Page → Door1Answer → Exec Feed JdError Page
  after_door1 page door1_failed = pure page
  after_door1 page (door1_raised e) = raise e
  after_door1 page (door1_result d) = pure (record page {
    accumulator = fill d.structured no_fields;
    html = d.html;
    hash_body = elim d.html [ none ↦ none | some h ↦ some (env.encode h) ];
    engine = d.engine;
  })

  unfoldable pub run_door1 : DoorRoute → Exec Feed JdError Page
  run_door1 route f =
      if route.door == 1
      then (do
        log_request route.url
        after_door1 (empty_page route) (env.door1 (length f.requests) route))
          f
      else pure (empty_page route) f

  -- the loop over the JSON-LD fields of the fetched page; `decoded` is its text
  abbrev pub take_html : Text → Value → Option Text → Option Text
  take_html decoded value html =
      if is_blank_text (html_or_empty html) || ltb (length decoded) (length (env.display value))
      then some (env.display value)
      else html

  abbrev pub read_json_ld : Text → Fields → Page → Page
  read_json_ld decoded no_fields page = page
  read_json_ld decoded (field key value rest) page = read_json_ld decoded rest (
      if str_eq key "_html"
      then record page { html = take_html decoded value page.html }
      else record page { accumulator = fill_open key value page.accumulator })

  abbrev pub page_read : FetchedResult → Page → Page
  page_read result page = record page {
    final_url = result.url;
    html = some (env.decode result.body);
    hash_body = some result.body;
    was_fetched = true;
  }

  -- behind the two status checks
  abbrev pub on_json_ld : FetchedResult → Page → Option Fields → Exec Feed JdError Page
  on_json_ld result page none = raise (uncaught "AttributeError")
  on_json_ld result page (some jsonld) = pure (
      read_json_ld (env.decode result.body) jsonld
        (record (page_read result page) { jsonld_found = has_fields jsonld }))

  abbrev pub read_fetched : FetchedResult → Page → Exec Feed JdError Page
  read_fetched result page = on_json_ld result page (env.extract_json_ld (env.decode result.body))

  abbrev pub after_fetch : Page → FetchAnswer → Exec Feed JdError Page
  after_fetch page (fetch_raised e) = raise e
  after_fetch page (fetched result) =
      if result.status_code == 404
      then raise job_not_found
      else if leb 400 result.status_code
      then raise fetch_failed
      else read_fetched result page

  abbrev pub fetch_page : DoorRoute → Page → Exec Feed JdError Page
  fetch_page route page f =
      (do log_request route.url; after_fetch page (env.fetch (length f.requests) route.url)) f

  -- `html is None or gaps_for(accumulator).has_criticals`
  abbrev pub needs_fetch : Fields → Option Text → Exec Feed JdError Bool
  needs_fetch acc none = pure true
  needs_fetch acc (some h) = do missing ← missing_criticals acc; pure (is_missing missing)

  -- `cleaned_text = strip_to_text(html or "")`
  abbrev pub clean : Page → Page
  clean page = record page { cleaned_text = env.strip_to_text (html_or_empty page.html) }

  unfoldable pub run_doors2_3 : DoorRoute → Page → Exec Feed JdError Page
  run_doors2_3 route page = do
    need_fetch ← needs_fetch page.accumulator page.html
    found_page ← (if need_fetch then fetch_page route page else pure page)
    pure (clean found_page)

  -- Gate 3.5. Where the JSON-LD of the rendered page raises, what was set before it stays set.
  abbrev pub fill_rendered : Fields → Fields → Fields
  fill_rendered no_fields acc = acc
  fill_rendered (field key value rest) acc =
      fill_rendered rest (if str_eq key "_html" then acc else fill_open key value acc)

  abbrev pub with_rendered_ld : FetchedResult → Page → Page
  with_rendered_ld result page = elim (env.extract_json_ld (env.decode result.body)) [
    | none ↦ page
    | some jsonld ↦ record page {
      jsonld_found = has_fields jsonld || page.jsonld_found;
      accumulator = fill_rendered jsonld page.accumulator;
      hash_body = some result.body;
    }
  ]

  abbrev pub take_rendered : FetchedResult → Page → Page
  take_rendered result page = with_rendered_ld result (record page {
    cleaned_text = env.strip_to_text (env.decode result.body);
    html = some (env.decode result.body);
    engine = "browser";
    final_url = result.url;
  })

  abbrev pub is_longer : FetchedResult → Page → Bool
  is_longer result page =
      not (length result.body == 0)
      && ltb (length (strip page.cleaned_text))
          (length (strip (env.strip_to_text (env.decode result.body))))

  abbrev pub after_render : Page → RenderAnswer → Page
  after_render page (rendered result) =
      if is_longer result page then take_rendered result page else page
  after_render page _ = page

  abbrev pub needs_render : Page → Bool
  needs_render page =
      not (is_blank_text (html_or_empty page.html))
      && looks_like_js_shell page.cleaned_text (html_or_empty page.html)

  abbrev pub render_page : Page → Exec Feed JdError Page
  render_page page f =
      (do
        log_request page.final_url
        pure (after_render page (env.render (length f.requests) page.final_url)))
        f

  unfoldable pub escalate : Page → Exec Feed JdError Page
  escalate page = if needs_render page then render_page page else pure page

  unfoldable pub find_page : DoorRoute → Exec Feed JdError Page
  find_page route = do
    page ← run_door1 route
    read_page ← run_doors2_3 route page
    escalate read_page
