-- ===== src/Jd/Store/Unique.antt =====
-- What the repository of jobs and snapshots keeps
-- (backend/app/db/repositories/core_engine_repository.py).
use auto_apply.Common.{
  ℕ, ◌==◌, ◌≡◌, refl, subst, String, Bool, true, false, ◌&&◌, Option, none, some, List, [], ◌∷◌,
  str_eq, str_eq_refl, eq_iff, find_first, map, Bool-cases, Option-cases, inl, inr, All, Text, keep,
  arith, if_induction, one_of,
}
use auto_apply.Common.Exec.{Leaves}
use auto_apply.Json.{Value, Fields}
use auto_apply.Jd.Schema.{DoorRoute}
use auto_apply.Jd.Store.{
  JobRow, Snapshot, JdWorld, find_snapshot, upsert_snapshot, is_job_of, find_job_by_url, insert_job,
  stored_or_new, snapshot_row, update_row, update_job, valid_platforms, valid_sources,
}

-- no two snapshots of one content
abbrev pub UniqueHashes : List Snapshot → Type 0
UniqueHashes [] = Unit
UniqueHashes (s ∷ l) = (find_snapshot s.content_hash l ≡ none) × UniqueHashes l

-- no two jobs of one user and url
abbrev pub UniqueJobs : List JobRow → Type 0
UniqueJobs [] = Unit
UniqueJobs (j ∷ l) = (find_first (is_job_of j.user_id j.url) l ≡ none) × UniqueJobs l

-- the snapshot of a hash, with its id
abbrev pub Holds : List Snapshot → ℕ → String → Type 0
Holds snaps i h = (s : Snapshot) × (find_snapshot h snaps ≡ some s) × (s.id ≡ i)

-- A job names a snapshot by its id and its content hash, or by neither.
abbrev pub Agrees : List Snapshot → Option ℕ → Option String → Type 0
Agrees snaps none none = Unit
Agrees snaps (some i) (some h) = Holds snaps i h
Agrees snaps _ _ = false ≡ true

abbrev pub Bound : List Snapshot → JobRow → Type 0
Bound snaps j = Agrees snaps j.current_snapshot_id j.content_hash

abbrev pub ConsistentRows : List JobRow → List Snapshot → Type 0
ConsistentRows jobs snaps = UniqueHashes snaps × UniqueJobs jobs × All (Bound snaps) jobs

abbrev pub IsConsistent : JdWorld → Type 0
IsConsistent w = ConsistentRows w.jobs w.snapshots

pub find_snapshot_behind :
    (new : Snapshot) (l : List Snapshot) (g : String) (s : Snapshot)
    → find_snapshot new.content_hash l ≡ none
    → find_snapshot g l ≡ some s
    → find_snapshot g (new ∷ l) ≡ some s
find_snapshot_behind new l g s absent found_it = elim (Bool-cases (str_eq new.content_hash g)) [
  | inl a ↦
      let here : find_snapshot g l ≡ none =
        (subst (λ k. find_snapshot k l ≡ none) ((eq_iff new.content_hash g).0 a) absent) in
      absurd (ground (arith, here, found_it))
  | inr a ↦ rw a found_it
]

Agrees-behind :
    (new : Snapshot) (l : List Snapshot)
    → find_snapshot new.content_hash l ≡ none
    → (i : Option ℕ) (h : Option String) → Agrees l i h
    → Agrees (new ∷ l) i h
Agrees-behind new l absent none none k = tt
Agrees-behind new l absent (some i) (some h) (s, e, p) =
    (s, find_snapshot_behind new l h s absent e, p)
Agrees-behind new l absent none (some h) k = k
Agrees-behind new l absent (some i) none k = k

Bound-behind :
    (new : Snapshot) (l : List Snapshot)
    → find_snapshot new.content_hash l ≡ none
    → (jobs : List JobRow) → All (Bound l) jobs
    → All (Bound (new ∷ l)) jobs
Bound-behind new l absent [] h = tt
Bound-behind new l absent (j ∷ jobs) (b, h) = (
  Agrees-behind new l absent j.current_snapshot_id j.content_hash b,
  Bound-behind new l absent jobs h,
)

-- A snapshot is stored once for its content, and the id that comes back is that row's.
pub upsert_snapshot-Leaves :
    (now : ℕ) (h : String) (payload : Fields) (raw_text : Option Text) (w : JdWorld)
    → IsConsistent w
    → Leaves
        (λ i w'. IsConsistent w' × Holds w'.snapshots i h)
        IsConsistent
        (upsert_snapshot now h payload raw_text w)
unfolding upsert_snapshot
upsert_snapshot-Leaves now h payload raw_text w (uh, uj, b) = go (find_snapshot h w.snapshots) refl
  where
    go :
        (o : Option Snapshot)
        → find_snapshot h w.snapshots ≡ o
        → Leaves
            (λ i w'. IsConsistent w' × Holds w'.snapshots i h)
            IsConsistent
            (stored_or_new now h payload raw_text o w)
    go (some s) e = ((uh, uj, b), (s, e, refl))
    go none e =
        let new = snapshot_row w.next_id now h payload raw_text in
        (((e, uh), uj, Bound-behind new w.snapshots e w.jobs b), (new, rw (str_eq_refl h), refl))

-- The columns that name a job's user and page stay as they are.
abbrev pub KeepsKey : (JobRow → JobRow) → Type 0
KeepsKey f = (j : JobRow) → ((f j).user_id ≡ j.user_id) × ((f j).url ≡ j.url)

pub update_row-KeepsKey :
    (now user_id job_id : ℕ) (f : JobRow → JobRow)
    → KeepsKey f
    → KeepsKey (update_row now user_id job_id f)
update_row-KeepsKey now user_id job_id f keeps j =
    if_induction (λ (i : JobRow). (i.user_id ≡ j.user_id) × (i.url ≡ j.url))
      (j.user_id == user_id && j.id == job_id) (record (f j) { updated_at = now }) j (λ _. keeps j)
      (λ _. (refl, refl))

map_absent :
    (g : JobRow → JobRow)
    → KeepsKey g
    → (u : ℕ) (url : String) (l : List JobRow) → find_first (is_job_of u url) l ≡ none
    → find_first (is_job_of u url) (map g l) ≡ none
map_absent g keeps u url [] h = refl
map_absent g keeps u url (j ∷ l) h =
    let same : is_job_of u url (g j) ≡ is_job_of u url j = (rw ((keeps j).0, (keeps j).1)) in
    elim (Bool-cases (is_job_of u url j)) [
      | inl a ↦ let bad : some j ≡ none = (rw a at h) in absurd (cc)
      | inr a ↦ let rest = (rw a at h) in rw (same, a, map_absent g keeps u url l rest)
    ]

map-UniqueJobs :
    (g : JobRow → JobRow) → KeepsKey g → (l : List JobRow) → UniqueJobs l → UniqueJobs (map g l)
map-UniqueJobs g keeps [] h = tt
map-UniqueJobs g keeps (j ∷ l) (absent, h) = (
  rw ((keeps j).0, (keeps j).1) (map_absent g keeps j.user_id j.url l absent),
  map-UniqueJobs g keeps l h,
)

map-Bound :
    (snaps : List Snapshot) (g : JobRow → JobRow)
    → ((j : JobRow) → Bound snaps j → Bound snaps (g j))
    → (l : List JobRow) → All (Bound snaps) l
    → All (Bound snaps) (map g l)
map-Bound snaps g k [] h = tt
map-Bound snaps g k (j ∷ l) (b, h) = (k j b, map-Bound snaps g k l h)

-- An update that keeps the key of a row and binds it, if at all, to a stored snapshot.
pub update_job-IsConsistent :
    (now user_id job_id : ℕ) (f : JobRow → JobRow) (w : JdWorld)
    → KeepsKey f
    → ((j : JobRow) → Bound w.snapshots j → Bound w.snapshots (f j))
    → IsConsistent w
    → IsConsistent (update_job now user_id job_id f w)
update_job-IsConsistent now user_id job_id f w keeps k (uh, uj, b) = (
  uh,
  map-UniqueJobs (update_row now user_id job_id f) (update_row-KeepsKey now user_id job_id f keeps)
      w.jobs uj,
  map-Bound w.snapshots (update_row now user_id job_id f)
      (λ j c.
        if_induction (Bound w.snapshots) (j.user_id == user_id && j.id == job_id)
          (record (f j) { updated_at = now }) j (λ _. k j c) (λ _. c))
      w.jobs b,
)

keep_absent :
    (p q : JobRow → Bool) (l : List JobRow) → find_first p l ≡ none → find_first p (keep q l) ≡ none
keep_absent p q [] h = refl
keep_absent p q (j ∷ l) h = elim (Bool-cases (p j)) [
  | inl a ↦ let bad : some j ≡ none = (rw a at h) in absurd (cc)
  | inr a ↦
      let rest = (rw a at h) in
      elim (Bool-cases (q j)) [
        | inl c ↦ rw (c, a, keep_absent p q l rest)
        | inr c ↦ rw (c, keep_absent p q l rest)
      ]
]

pub keep-ConsistentRows :
    (q : JobRow → Bool) (l : List JobRow) (snaps : List Snapshot)
    → ConsistentRows l snaps
    → ConsistentRows (keep q l) snaps
keep-ConsistentRows q [] snaps h = h
keep-ConsistentRows q (j ∷ l) snaps (uh, (absent, uj), (b, bs)) =
    let rest = keep-ConsistentRows q l snaps (uh, uj, bs) in
    if_induction (λ js. ConsistentRows js snaps) (q j) (j ∷ keep q l) (keep q l)
      (λ _. (uh, (keep_absent (is_job_of j.user_id j.url) q l absent, rest.1), (b, rest.2)))
      (λ _. rest)

-- A job is inserted only where the user has none for the url.
pub insert_job-Leaves :
    (now user_id : ℕ) (route : DoorRoute) (source : String) (title company : Value) (w : JdWorld)
    → IsConsistent w
    → Leaves
        (λ _ w'. IsConsistent w' × (w'.snapshots ≡ w.snapshots))
        IsConsistent
        (insert_job now user_id route source title company w)
unfolding insert_job find_job_by_url
insert_job-Leaves now user_id route source title company w (uh, uj, b) =
    elim (Bool-cases (one_of route.platform valid_platforms && one_of source valid_sources)) [
      | inl c ↦ elim (Option-cases (find_first (is_job_of user_id route.url) w.jobs)) [
        | inl e ↦ rw (Leaves, c, e) (((uh, (e, uj), (tt, b))), refl)
        | inr (j, e) ↦ rw (Leaves, c, e) (uh, uj, b)
      ]
      | inr c ↦ rw (Leaves, c) (uh, uj, b)
    ]
