-- ===== src/Jd/Classify.antt =====
-- The entry door of a url (backend/app/core_engine/jd_classify.py). `urlparse` gives the host and the
-- path, and `lower` is `str.lower`.
pub mod Laws
use Prim.Native.Char.{code}
use Prim.Native.String
use auto_apply.Common.{
  ℕ, ◌==◌, String, Bool, true, false, not, ◌&&◌, ◌||◌, Option, none, some, List, [], ◌∷◌, keep,
  str_eq, one_of, is_empty_text, is_some, if◌then◌else◌,
}
use auto_apply.Jd.Schema.{DoorRoute}

-- `urlparse(url)`
pub record ParsedUrl : Type 0 where
  pub hostname : Option String
  pub path : String

abbrev pub slash : ℕ
slash = 47

-- the rest of a text behind a prefix
abbrev pub after_prefix_of : String → String → Option String
after_prefix_of String.[] s = some s
after_prefix_of (String.◌∷◌ c p) String.[] = none
after_prefix_of (String.◌∷◌ c p) (String.◌∷◌ d s) =
    let rest = after_prefix_of p s in if code c == code d then rest else none

-- `host.removesuffix(suffix)` where the host ends with it
abbrev pub before_suffix : String → String → Option String
before_suffix suffix String.[] = if str_eq "" suffix then some "" else none
before_suffix suffix (String.◌∷◌ c s) =
    let rest = before_suffix suffix s in
    if str_eq (String.◌∷◌ c s) suffix
    then some ""
    else elim rest [ none ↦ none | some r ↦ some (String.◌∷◌ c r) ]

abbrev pub ends_with : String → String → Bool
ends_with suffix s = is_some (before_suffix suffix s)

abbrev pub starts_with_text : String → String → Bool
starts_with_text prefix s = is_some (after_prefix_of prefix s)

-- the characters before the next slash, `[^/]*`
abbrev pub up_to_slash : String → String
up_to_slash String.[] = ""
up_to_slash (String.◌∷◌ c s) =
    let rest = up_to_slash s in if code c == slash then "" else String.◌∷◌ c rest

-- `search` for the marker followed by `([^/]+)`, from the left
abbrev pub id_at : Option String → Option String
id_at none = none
id_at (some rest) = let id = up_to_slash rest in if is_empty_text id then none else some id

abbrev pub first_id : Option String → Option String → Option String
first_id (some id) later = some id
first_id none later = later

abbrev pub id_behind : String → String → Option String
id_behind marker String.[] = id_at (after_prefix_of marker "")
id_behind marker (String.◌∷◌ c s) =
    let later = id_behind marker s in
    first_id (id_at (after_prefix_of marker (String.◌∷◌ c s))) later

-- `needle in s`
abbrev pub has_text : String → String → Bool
has_text needle String.[] = starts_with_text needle ""
has_text needle (String.◌∷◌ c s) =
    let later = has_text needle s in starts_with_text needle (String.◌∷◌ c s) || later

abbrev pub first_char : Bool → String → List String → List String
first_char is_slash head [] = []
first_char true head (w ∷ ws) = "" ∷ w ∷ ws
first_char false head (w ∷ ws) = String.◌++◌ head w ∷ ws

-- `path.split("/")`
abbrev pub split_slash : String → List String
split_slash String.[] = "" ∷ []
split_slash (String.◌∷◌ c s) =
    let rest = split_slash s in first_char (code c == slash) (String.◌∷◌ c "") rest

-- `[s for s in path.split("/") if s]`
abbrev pub segments : String → List String
segments path = keep (λ s. not (is_empty_text s)) (split_slash path)

abbrev pub nth_segment : List String → Option String
nth_segment [] = none
nth_segment (s ∷ l) = some s

abbrev pub tail_of : List String → List String
tail_of [] = []
tail_of (s ∷ l) = l

abbrev pub ats_route : String → String → Option String → Option String → DoorRoute
ats_route url platform slug posting_id = record {
  url = url;
  platform = platform;
  door = 1;
  slug = slug;
  posting_id = posting_id;
}

abbrev pub page_route : String → String → DoorRoute
page_route url platform = record {
  url = url;
  platform = platform;
  door = 2;
  slug = none;
  posting_id = none;
}

-- `segments[1] if len(segments) > 1 else segments[0]`
abbrev pub second_or_first : List String → Option String
second_or_first (s ∷ t ∷ l) = some t
second_or_first l = nth_segment l

-- the last chain of tests: Workday, LinkedIn, Indeed
abbrev pub platform_by : Bool → Bool → Bool → String
platform_by true is_linkedin is_indeed = "workday"
platform_by false true is_indeed = "linkedin"
platform_by false false true = "indeed"
platform_by false false false = "generic"

abbrev pub page_platform : String → String → String
page_platform host path =
    platform_by (ends_with "myworkdayjobs.com" host)
      (one_of host ("linkedin.com" ∷ "www.linkedin.com" ∷ []) && starts_with_text "/jobs/" path)
      (one_of host ("indeed.com" ∷ "www.indeed.com" ∷ []) && starts_with_text "/viewjob" path)

abbrev pub host_or_empty : (String → String) → Option String → String
host_or_empty lower none = lower ""
host_or_empty lower (some host) = lower host

-- the branches, by the tests of the four for an API
abbrev pub route_by : String → String → String → Bool → Bool → Bool → Bool → DoorRoute
route_by url host path true is_custom is_lever is_lever_path =
    ats_route url "greenhouse" (nth_segment (segments path)) (id_behind "/jobs/" path)
route_by url host path false true is_lever is_lever_path =
    ats_route url "greenhouse" (before_suffix ".greenhouse.io" host) (id_behind "/jobs/" path)
route_by url host path false false true is_lever_path =
    ats_route url "lever" (nth_segment (segments path)) (nth_segment (tail_of (segments path)))
route_by url host path false false false true =
    ats_route url "lever" (second_or_first (segments path)) (id_behind "/postings/" path)
route_by url host path false false false false = page_route url (page_platform host path)

abbrev pub classify_host : String → String → String → DoorRoute
classify_host url host path =
    route_by url host path (str_eq host "boards.greenhouse.io")
      (ends_with ".greenhouse.io" host && has_text "/jobs/" path) (str_eq host "jobs.lever.co")
      (ends_with "lever.co" host && starts_with_text "/postings/" path)

unfoldable pub classify_url : (String → String) → (String → ParsedUrl) → String → DoorRoute
classify_url lower urlparse url =
    classify_host url (host_or_empty lower (urlparse url).hostname) (urlparse url).path
