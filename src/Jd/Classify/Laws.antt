-- ===== src/Jd/Classify/Laws.antt =====
-- What every classification of a url satisfies (backend/app/core_engine/jd_classify.py).
use auto_apply.Common.{
  String, ◌≡◌, refl, Bool, true, false, ◌&&◌, List, [], ◌∷◌, one_of, str_eq, if◌then◌else◌,
}
use auto_apply.Jd.Schema.{DoorRoute}
use auto_apply.Jd.Store.{valid_platforms}
use auto_apply.Jd.Classify.{
  ParsedUrl, classify_url, classify_host, route_by, platform_by, host_or_empty, page_route,
  page_platform, ends_with, has_text, starts_with_text,
}

-- the platforms with a public API
abbrev pub ats_platforms : List String
ats_platforms = "greenhouse" ∷ "lever" ∷ []

-- The url is kept, the table of jobs takes the platform, and the first door is for the platforms with
-- an API, the second for the others.
abbrev pub FitsJobs : String → DoorRoute → Type 0
FitsJobs url r =
    (r.url ≡ url)
    × (one_of r.platform valid_platforms ≡ true)
    × (r.door ≡ (if one_of r.platform ats_platforms then 1 else 2))

abbrev pub FitsPage : String → String → Type 0
FitsPage url platform = FitsJobs url (page_route url platform)

platform_by-FitsPage : (url : String) (b c d : Bool) → FitsPage url (platform_by b c d)
platform_by-FitsPage url true c d = (refl, refl, refl)
platform_by-FitsPage url false true d = (refl, refl, refl)
platform_by-FitsPage url false false true = (refl, refl, refl)
platform_by-FitsPage url false false false = (refl, refl, refl)

page_platform-FitsPage : (url host path : String) → FitsPage url (page_platform host path)
page_platform-FitsPage url host path =
    platform_by-FitsPage url (ends_with "myworkdayjobs.com" host)
      (one_of host ("linkedin.com" ∷ "www.linkedin.com" ∷ []) && starts_with_text "/jobs/" path)
      (one_of host ("indeed.com" ∷ "www.indeed.com" ∷ []) && starts_with_text "/viewjob" path)

route_by-FitsJobs :
    (url host path : String) (b c d e : Bool) → FitsJobs url (route_by url host path b c d e)
route_by-FitsJobs url host path true c d e = (refl, refl, refl)
route_by-FitsJobs url host path false true d e = (refl, refl, refl)
route_by-FitsJobs url host path false false true e = (refl, refl, refl)
route_by-FitsJobs url host path false false false true = (refl, refl, refl)
route_by-FitsJobs url host path false false false false = page_platform-FitsPage url host path

classify_host-FitsJobs : (url host path : String) → FitsJobs url (classify_host url host path)
classify_host-FitsJobs url host path =
    route_by-FitsJobs url host path (str_eq host "boards.greenhouse.io")
      (ends_with ".greenhouse.io" host && has_text "/jobs/" path) (str_eq host "jobs.lever.co")
      (ends_with "lever.co" host && starts_with_text "/postings/" path)

-- Every classification keeps the url, names a platform that the table of jobs accepts, and enters by
-- the first door for Greenhouse and Lever and by the second for every other platform.
pub classify_url-FitsJobs :
    (lower : String → String) (urlparse : String → ParsedUrl) (url : String)
    → FitsJobs url (classify_url lower urlparse url)
unfolding classify_url
classify_url-FitsJobs lower urlparse url =
    classify_host-FitsJobs url (host_or_empty lower (urlparse url).hostname) (urlparse url).path
