-- ===== src/Jd/Extract/Calls.antt =====
-- The bound on the provider calls of one extraction (backend/app/core_engine/jd_extractor.py).
use auto_apply.Common.{
  ℕ, ◌+◌, ◌*◌, ◌≤◌, String, ◌≡◌, subst, ap, Option, none, some, List, arith, length,
}
use auto_apply.Common.Exec.{Outcome, ok, err, Leaves, bind-Leaves, weaker-Leaves, continue, settle}
use auto_apply.Jd.Budget.{JdError, max_calls}
use auto_apply.Jd.Schema.{DoorRoute}
use auto_apply.Jd.Env.{route_of, JdEnv, Run}
use auto_apply.Jd.Ask.{Trace, ask_models}
use auto_apply.Jd.Doors.{Page, find_page}
use auto_apply.Jd.Doors.Silent.{find_page-Silent}
use auto_apply.Jd.Extract.{
  ask_about, asked, new_run, JobExtraction, Gathered, serve_cached, finish_extraction,
  extract_fresh, run_doors, extract_job, cached_or_fresh, cached_snapshot,
}
use auto_apply.Jd.Extract.Quiet.{asked_of, finish_extraction-Quiet, serve_cached-Quiet}
use auto_apply.Jd.Store.{rollback_jd, Feed, JdWorld, Snapshot}
use auto_apply.Llm.Store.{World, Call}
use auto_apply.Jd.Ask.Spent.{Spends, KeepsSpends, chain_size}
use auto_apply.Jd.Ask.Bounds.{ask_models-Spends}

-- the bound on the calls, and on what the budget counts of them
abbrev pub WithinCalls : ℕ → List Call → World → ℕ → Type 0
WithinCalls user_id before w count =
    (length before ≤ length w.calls + max_calls * chain_size user_id w) × (count ≤ max_calls)

times_le : (k m n : ℕ) → k ≤ m → k * n ≤ m * n
times_le k m n h = grind arith

new_run-Within :
    (env : JdEnv) (now user_id : ℕ) (source : String) (page : Page) (f : Feed) (s : Run)
    → Spends user_id (new_run env now user_id source f page) s
    → WithinCalls user_id s.llm.calls f.llm s.budget.call_count
new_run-Within env now user_id source page f s (k, c, l, g, p, h) =
    let capped : k ≤ 5 = (let most = h (omega arith) in omega arith) in
    (omega (arith, times_le k 5 (chain_size user_id f.llm) capped), omega arith)

ask_about-Within :
    (env : JdEnv) (now user_id : ℕ) (source : String) (route : DoorRoute) (page : Page) (f : Feed)
    → Leaves
        (λ g f'. WithinCalls user_id f'.llm.calls f.llm g.budget.call_count)
        (λ f'. length f'.llm.calls ≤ length f.llm.calls + max_calls * chain_size user_id f.llm)
        (ask_about env now user_id source route page f)
unfolding ask_about
ask_about-Within env now user_id source route page f =
    go
      (ask_models env user_id route.url page.cleaned_text (new_run env now user_id source f page)).0
      (ask_models env user_id route.url page.cleaned_text (new_run env now user_id source f page)).1
      (ask_models-Spends env user_id route.url page.cleaned_text
        (new_run env now user_id source f page))
  where
    go :
        (o : Outcome JdError Trace) (s : Run)
        → KeepsSpends user_id (new_run env now user_id source f page) (o, s)
        → Leaves
            (λ g f'. WithinCalls user_id f'.llm.calls f.llm g.budget.call_count)
            (λ f'. length f'.llm.calls ≤ length f.llm.calls + max_calls * chain_size user_id f.llm)
            (asked env now user_id source f page (o, s))
    go (ok t) s h = new_run-Within env now user_id source page f s h
    go (err e) s h = (new_run-Within env now user_id source page f s h).0

-- at most five provider calls for each entry of the user's chain
abbrev pub Paid : ℕ → World → World → Type 0
Paid user_id w v = length v.calls ≤ length w.calls + max_calls * chain_size user_id w

module _ (env : JdEnv) (now user_id : ℕ) (source : String) where
  run_doors-Paid :
      (route : DoorRoute) (f : Feed)
      → Leaves
          (λ g f'. Paid user_id f.llm f'.llm × (g.budget.call_count ≤ max_calls))
          (λ f'. Paid user_id f.llm f'.llm)
          (run_doors env now user_id source route f)
  unfolding run_doors
  run_doors-Paid route f =
      bind-Leaves (λ _ g. g.llm ≡ f.llm)
        (λ g f'. Paid user_id f.llm f'.llm × (g.budget.call_count ≤ max_calls))
        (λ f'. Paid user_id f.llm f'.llm) (find_page env route) _ f
        (weaker-Leaves (λ _ g. g.llm ≡ f.llm) (λ _ g. g.llm ≡ f.llm) (λ g. g.llm ≡ f.llm)
          (λ g. Paid user_id f.llm g.llm) (find_page env route f) (λ page g e. e)
          (λ g e. omega (arith, ap (λ (w : World). length w.calls) e))
          (find_page-Silent env route f))
        (λ page g e.
          weaker-Leaves (λ d f'. WithinCalls user_id f'.llm.calls g.llm d.budget.call_count)
            (λ d f'. Paid user_id f.llm f'.llm × (d.budget.call_count ≤ max_calls))
            (λ f'. length f'.llm.calls ≤ length g.llm.calls + max_calls * chain_size user_id g.llm)
            (λ f'. Paid user_id f.llm f'.llm) (ask_about env now user_id source route page g)
            (λ d f' (n, k). (subst (λ (w : World). Paid user_id w f'.llm) e n, k))
            (λ f' n. subst (λ (w : World). Paid user_id w f'.llm) e n)
            (ask_about-Within env now user_id source route page g))

  abbrev pub PaysFor : {A : Type 0} → JdWorld → Outcome JdError A × JdWorld → Type 0
  PaysFor w =
      Leaves (λ _ v. Paid user_id w.feed.llm v.feed.llm) (λ v. Paid user_id w.feed.llm v.feed.llm)

  extract_fresh-PaysFor :
      (route : DoorRoute) (w : JdWorld) → PaysFor w (extract_fresh env now user_id source route w)
  unfolding extract_fresh
  extract_fresh-PaysFor route w =
      go (run_doors env now user_id source route w.feed).0
        (run_doors env now user_id source route w.feed).1 (run_doors-Paid route w.feed)
    where
      go :
          (o : Outcome JdError Gathered) (f : Feed)
          → Leaves
              (λ g f'. Paid user_id w.feed.llm f'.llm × (g.budget.call_count ≤ max_calls))
              (λ f'. Paid user_id w.feed.llm f'.llm)
              (o, f)
          → PaysFor w
              (continue o (finish_extraction env now user_id source route) (record w { feed = f }))
      go (err e) f n = n
      go (ok g) f (n, k) =
          weaker-Leaves (λ _ v. asked_of v ≡ f.llm.calls)
            (λ _ v. Paid user_id w.feed.llm v.feed.llm) (λ v. asked_of v ≡ f.llm.calls)
            (λ v. Paid user_id w.feed.llm v.feed.llm)
            (finish_extraction env now user_id source route g (record w { feed = f }))
            (λ a v e. omega (arith, ap length e)) (λ v e. omega (arith, ap length e))
            (finish_extraction-Quiet env now user_id source route g (record w { feed = f }))

  cached_or_fresh-PaysFor :
      (route : DoorRoute) (o : Option Snapshot) (w : JdWorld)
      → PaysFor w (cached_or_fresh env now user_id source route o w)
  cached_or_fresh-PaysFor route none w = extract_fresh-PaysFor route w
  cached_or_fresh-PaysFor route (some cached) w =
      weaker-Leaves (λ _ v. asked_of v ≡ asked_of w) (λ _ v. Paid user_id w.feed.llm v.feed.llm)
        (λ v. asked_of v ≡ asked_of w) (λ v. Paid user_id w.feed.llm v.feed.llm)
        (serve_cached env now user_id source route cached w) (λ a v e. omega (arith, ap length e))
        (λ v e. omega (arith, ap length e))
        (serve_cached-Quiet env now user_id source route cached w)

settled_calls :
    (user_id : ℕ) (w v : JdWorld) (o : Outcome JdError JobExtraction)
    → Leaves
        (λ _ u. Paid user_id w.feed.llm u.feed.llm)
        (λ u. Paid user_id w.feed.llm u.feed.llm)
        (o, v)
    → Paid user_id w.feed.llm (settle rollback_jd w (o, v)).1.feed.llm
settled_calls user_id w v (ok a) h = h
settled_calls user_id w v (err e) h = h

-- Whatever the pages and the models answer, one extraction, also one that raises, makes at most five
-- provider calls for each entry of the chain that the user's settings resolve to.
pub extract_job-Paid :
    (env : JdEnv) (now user_id : ℕ) (source url : String) (w : JdWorld)
    → Paid user_id w.feed.llm (extract_job env now user_id source url w).1.feed.llm
unfolding extract_job
extract_job-Paid env now user_id source url w =
    settled_calls user_id w
      (cached_or_fresh env now user_id source (route_of env url)
        (cached_snapshot env now user_id source (route_of env url) w) w).1
      (cached_or_fresh env now user_id source (route_of env url)
        (cached_snapshot env now user_id source (route_of env url) w) w).0
      (cached_or_fresh-PaysFor env now user_id source (route_of env url)
        (cached_snapshot env now user_id source (route_of env url) w) w)
