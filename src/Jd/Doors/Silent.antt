-- ===== src/Jd/Doors/Silent.antt =====
-- The first three doors ask no model (backend/app/core_engine/jd_extractor.py).
use auto_apply.Common.{
  ◌≡◌, refl, ◌∙◌, ◌==◌, String, Option, none, some, List, Text, if_induction, leb, length,
  if◌then◌else◌,
}
use auto_apply.Common.Exec.{
  Exec, Outcome, ok, Leaves, bind-Leaves, weaker-Leaves, pure, raise, ◌>>=◌,
}
use auto_apply.Json.{Fields}
use auto_apply.Jd.Budget.{JdError, job_not_found, fetch_failed}
use auto_apply.Jd.Schema.{DoorRoute, gaps_for}
use auto_apply.Jd.Env.{
  JdEnv, FetchAnswer, fetched, fetch_raised, Door1Answer, door1_result, door1_failed, door1_raised,
  FetchedResult,
}
use auto_apply.Jd.Store.{Feed}
use auto_apply.Jd.Doors.{
  Page, run_door1, after_door1, needs_fetch, gaps_or_raise, on_json_ld, read_fetched, after_fetch,
  fetch_page, run_doors2_3, escalate, needs_render, render_page, find_page, empty_page, log_request,
}

-- the router's world stays as it is
abbrev pub Silent : {A : Type 0} → Feed → Outcome JdError A × Feed → Type 0
Silent f = Leaves (λ _ g. g.llm ≡ f.llm) (λ g. g.llm ≡ f.llm)

bind-Silent :
    {A B : Type 0} (f : Feed) (m : Exec Feed JdError A) (k : A → Exec Feed JdError B)
    → Silent f (m f)
    → ((a : A) (g : Feed) → Silent g (k a g))
    → Silent f ((m >>= k) f)
bind-Silent f m k h j =
    bind-Leaves (λ _ g. g.llm ≡ f.llm) (λ _ g. g.llm ≡ f.llm) (λ g. g.llm ≡ f.llm) m k f h
      (λ a g e.
        weaker-Leaves (λ _ i. i.llm ≡ g.llm) (λ _ i. i.llm ≡ f.llm) (λ i. i.llm ≡ g.llm)
          (λ i. i.llm ≡ f.llm) (k a g) (λ b i d. d ∙ e) (λ i d. d ∙ e) (j a g))

module _ (env : JdEnv) where
  after_door1-Silent :
      (page : Page) (answer : Door1Answer) (f : Feed) → Silent f (after_door1 env page answer f)
  after_door1-Silent page (door1_result d) f = refl
  after_door1-Silent page door1_failed f = refl
  after_door1-Silent page (door1_raised e) f = refl

  run_door1-Silent : (route : DoorRoute) (f : Feed) → Silent f (run_door1 env route f)
  unfolding run_door1
  run_door1-Silent route f =
      if_induction (λ (o : Outcome JdError Page × Feed). Silent f o) (route.door == 1) _
        (ok (empty_page route), f)
        (λ _.
          bind-Silent f (log_request route.url) _ refl
            (λ _ g. after_door1-Silent (empty_page route) (env.door1 (length f.requests) route) g))
        (λ _. refl)

  on_json_ld-Silent :
      (result : FetchedResult) (page : Page) (o : Option Fields) (f : Feed)
      → Silent f (on_json_ld env result page o f)
  on_json_ld-Silent result page none f = refl
  on_json_ld-Silent result page (some jsonld) f = refl

  after_fetch-Silent :
      (page : Page) (answer : FetchAnswer) (f : Feed) → Silent f (after_fetch env page answer f)
  after_fetch-Silent page (fetch_raised e) f = refl
  after_fetch-Silent page (fetched result) f =
      if_induction (λ (m : Exec Feed JdError Page). Silent f (m f)) (result.status_code == 404)
        (raise job_not_found)
        (if leb 400 result.status_code then raise fetch_failed else read_fetched env result page)
        (λ _. refl)
        (λ _.
          if_induction (λ (m : Exec Feed JdError Page). Silent f (m f)) (leb 400 result.status_code)
            (raise fetch_failed) (read_fetched env result page) (λ _. refl)
            (λ _. on_json_ld-Silent result page (env.extract_json_ld (env.decode result.body)) f))

  needs_fetch-Silent :
      (acc : Fields) (html : Option Text) (f : Feed) → Silent f (needs_fetch env acc html f)
  needs_fetch-Silent acc none f = refl
  needs_fetch-Silent acc (some h) f =
      bind-Silent f (gaps_or_raise (gaps_for acc)) _ (go (gaps_for acc)) (λ missing g. refl)
    where
      go : (o : Option (List String)) → Silent f (gaps_or_raise o f)
      go none = refl
      go (some missing) = refl

  run_doors2_3-Silent :
      (route : DoorRoute) (page : Page) (f : Feed) → Silent f (run_doors2_3 env route page f)
  unfolding run_doors2_3
  run_doors2_3-Silent route page f =
      bind-Silent f (needs_fetch env page.accumulator page.html) _
        (needs_fetch-Silent page.accumulator page.html f)
        (λ need g.
          bind-Silent g (if need then fetch_page env route page else pure page) _
            (if_induction (λ (m : Exec Feed JdError Page). Silent g (m g)) need
              (fetch_page env route page) (pure page)
              (λ _.
                bind-Silent g (log_request route.url) _ refl
                  (λ _ i. after_fetch-Silent page (env.fetch (length g.requests) route.url) i))
              (λ _. refl))
            (λ found_page i. refl))

  escalate-Silent : (page : Page) (f : Feed) → Silent f (escalate env page f)
  unfolding escalate
  escalate-Silent page f =
      if_induction (λ (m : Exec Feed JdError Page). Silent f (m f)) (needs_render env page)
        (render_page env page) (pure page) (λ _. refl) (λ _. refl)

  pub find_page-Silent : (route : DoorRoute) (f : Feed) → Silent f (find_page env route f)
  unfolding find_page
  find_page-Silent route f =
      bind-Silent f (run_door1 env route) _ (run_door1-Silent route f) (λ page g.
        bind-Silent g (run_doors2_3 env route page) _ (run_doors2_3-Silent route page g)
          (λ read_page i. escalate-Silent read_page i))
