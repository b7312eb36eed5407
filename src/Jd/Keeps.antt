-- ===== src/Jd/Keeps.antt =====
-- The operations on jobs and the consistency of their tables
-- (backend/app/core_engine/jd_extractor.py).
use auto_apply.Common.{
  ℕ, ◌≡◌, refl, String, Bool, Option, none, some, List, [], ◌∷◌, if_induction, All, keep,
  str_eq_refl,
}
use auto_apply.Common.Exec.{Leaves, bind-Leaves}
use auto_apply.Common.Sort.{All-sort_by}
use auto_apply.Json.{Value}
use auto_apply.Jd.Schema.{DoorRoute}
use auto_apply.Jd.Store.{
  JobRow, Snapshot, JdWorld, get_or_create_for_user, job_or_new, insert_job, created_row,
  or_unextracted, find_job_by_url, apply_snapshot, bind_snapshot, mark_freshness,
  touch_last_fetched, find_snapshot, head_of, meta_is, find_snapshot_by_source_url,
}
use auto_apply.Jd.Store.Unique.{
  IsConsistent, Holds, update_job-IsConsistent, insert_job-Leaves, find_snapshot_behind,
  UniqueHashes,
}

module _ (now user_id : ℕ) where
  -- the snapshots that a method starts with stay as they are
  abbrev pub Created : List Snapshot → JobRow × Bool → JdWorld → Type 0
  Created snaps jc w = IsConsistent w × (w.snapshots ≡ snaps)

  pub get_or_create_for_user-Leaves :
      (route : DoorRoute) (source : String) (title company : Value) (w : JdWorld)
      → IsConsistent w
      → Leaves
          (Created w.snapshots)
          IsConsistent
          (get_or_create_for_user now user_id route source title company w)
  unfolding get_or_create_for_user
  get_or_create_for_user-Leaves route source title company w c =
      go (find_job_by_url user_id route.url w)
    where
      read_back :
          (o : Option JobRow) (w' : JdWorld)
          → IsConsistent w'
          → w'.snapshots ≡ w.snapshots
          → Leaves (Created w.snapshots) IsConsistent (created_row o w')
      read_back none w' d e = d
      read_back (some job) w' d e = (d, e)

      go :
          (o : Option JobRow)
          → Leaves
              (Created w.snapshots)
              IsConsistent
              (job_or_new now user_id route source title company o w)
      go (some job) = (c, refl)
      go none =
          bind-Leaves (λ _ w'. IsConsistent w' × (w'.snapshots ≡ w.snapshots)) (Created w.snapshots)
            IsConsistent
            (insert_job now user_id route source (or_unextracted title) (or_unextracted company)) _
            w
            (insert_job-Leaves now user_id route source (or_unextracted title)
              (or_unextracted company) w c)
            (λ _ w' (d, e). read_back (find_job_by_url user_id route.url w') w' d e)

  pub apply_snapshot-IsConsistent :
      (job_id snapshot_id : ℕ) (h : String) (w : JdWorld)
      → Holds w.snapshots snapshot_id h
      → IsConsistent w
      → IsConsistent (apply_snapshot now user_id job_id snapshot_id h w)
  unfolding apply_snapshot
  apply_snapshot-IsConsistent job_id snapshot_id h w held =
      update_job-IsConsistent now user_id job_id (bind_snapshot now snapshot_id h) w
        (λ j. (refl, refl)) (λ j _. held)

  -- the methods that only change a job's freshness
  pub mark_freshness-IsConsistent :
      (job_id : ℕ) (state : String) (w : JdWorld)
      → IsConsistent w
      → IsConsistent (mark_freshness now user_id job_id state w)
  unfolding mark_freshness
  mark_freshness-IsConsistent job_id state w =
      update_job-IsConsistent now user_id job_id (λ j. record j { freshness_state = state }) w
        (λ j. (refl, refl)) (λ j b. b)

  pub touch_last_fetched-IsConsistent :
      (job_id : ℕ) (w : JdWorld)
      → IsConsistent w
      → IsConsistent (touch_last_fetched now user_id job_id w)
  unfolding touch_last_fetched
  touch_last_fetched-IsConsistent job_id w =
      update_job-IsConsistent now user_id job_id (λ j. record j { last_fetched_at = some now }) w
        (λ j. (refl, refl)) (λ j b. b)

Holds-behind :
    (s : Snapshot) (l rest : List Snapshot)
    → find_snapshot s.content_hash l ≡ none
    → All (λ t. Holds l t.id t.content_hash) rest
    → All (λ t. Holds (s ∷ l) t.id t.content_hash) rest
Holds-behind s l [] absent h = tt
Holds-behind s l (t ∷ rest) absent ((u, e, p), h) =
    ((u, find_snapshot_behind s l t.content_hash u absent e, p), Holds-behind s l rest absent h)

-- Every stored snapshot is the one of its hash.
stored-Holds : (l : List Snapshot) → UniqueHashes l → All (λ t. Holds l t.id t.content_hash) l
stored-Holds [] h = tt
stored-Holds (s ∷ l) (absent, h) =
    ((s, rw (str_eq_refl s.content_hash), refl), Holds-behind s l l absent (stored-Holds l h))

keep-All :
    (P : Snapshot → Type 0) (q : Snapshot → Bool) (l : List Snapshot) → All P l → All P (keep q l)
keep-All P q [] h = tt
keep-All P q (s ∷ l) (p, h) =
    if_induction (All P) (q s) (s ∷ keep q l) (keep q l) (λ _. (p, keep-All P q l h))
      (λ _. keep-All P q l h)

abbrev pub OfHead : (Snapshot → Type 0) → Option Snapshot → Type 0
OfHead P none = Unit
OfHead P (some s) = P s

head_of-All : (P : Snapshot → Type 0) (l : List Snapshot) → All P l → OfHead P (head_of l)
head_of-All P [] h = tt
head_of-All P (s ∷ l) (p, h) = p

-- A snapshot that a url finds is the stored one of its hash.
pub find_snapshot_by_source_url-Holds :
    (url : String) (w : JdWorld)
    → IsConsistent w
    → OfHead (λ s. Holds w.snapshots s.id s.content_hash) (find_snapshot_by_source_url url w)
unfolding find_snapshot_by_source_url
find_snapshot_by_source_url-Holds url w (uh, uj, b) = head_of-All _ _ (
    All-sort_by _ _ _ (
      keep-All _ (λ s. meta_is "source_url" url s.payload) w.snapshots
        (stored-Holds w.snapshots uh)))
