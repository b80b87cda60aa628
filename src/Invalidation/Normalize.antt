-- ===== src/Invalidation/Normalize.antt =====
-- internal/wait0/invalidation/normalize.go: the paths and the tags of a request.
use mathlib.Core.Path.{subst}
use wait.Base.{
  ◌++◌, ℕ, ◌+◌, ◌≡◌, ◌≢◌, refl, sym, Bool, true, false, not, ◌||◌, Option, none, some, List, [],
  ◌∷◌, inl, inr, Str, str, str_eq, member, trim_space, has_prefix, if◌then◌else◌, any, ◌==◌, arith,
  Bool-cases, Option-cases, Distinct, Fresh, Fresh-tail, Fresh-head, str_eq_iff, All,
}

-- What the code reads of a url.URL.
pub record Url : Type 0 where
  pub path : Str
  pub raw_query : Str
  pub fragment : Str

-- `url.Parse` and `url.ParseRequestURI` of net/url; `none` is an error.
pub record UrlParser : Type 0 where
  pub parse : Str → Option Url
  pub parse_request_uri : Str → Option Url

-- The result of an operation that can fail, with where it failed.
pub data Outcome : Type 0 where
  failed_at : ℕ → Outcome
  done : List Str → Outcome

unfoldable pub prepend : Str → Outcome → Outcome
prepend t (failed_at i) = failed_at i
prepend t (done ts) = done (t ∷ ts)

-- `/` before a path that does not start with one.
unfoldable pub rooted : Str → Str
rooted p = if has_prefix p (str "/") then p else str "/" ++ p

-- The branch for an absolute URL.
unfoldable pub absolute_path : Url → Str
absolute_path u = if str_eq u.path [] then str "/" else rooted u.path

-- The branch for a path.
unfoldable pub relative_path : Str → Url → Option Str
relative_path v u =
    if str_eq u.path []
    then (if not (str_eq u.raw_query [])
          || not (str_eq u.fragment [])
          || has_prefix v (str "?")
          || has_prefix v (str "#")
        then none
        else some (rooted (str "/")))
    else some (rooted u.path)

-- An absolute URL that could be parsed, or not.
unfoldable pub from_absolute : Option Url → Option Str
from_absolute none = none
from_absolute (some u) = some (absolute_path u)

unfoldable pub from_relative : Str → Option Url → Option Str
from_relative v none = none
from_relative v (some u) = relative_path v u

unfoldable pub normalize_path : UrlParser → Str → Option Str
normalize_path parser raw =
    let v = trim_space raw in
    if str_eq v []
    then some []
    else if has_prefix v (str "http://") || has_prefix v (str "https://")
    then from_absolute (parser.parse v)
    else from_relative v (parser.parse_request_uri v)

-- The loop of `NormalizePaths`, from the index `i` with the paths that were seen.
unfoldable pub normalize_paths_from : UrlParser → ℕ → List Str → List Str → Outcome
normalize_paths_from parser i seen [] = done []
normalize_paths_from parser i seen (raw ∷ raws) = elim (normalize_path parser raw) [
  | none ↦ failed_at i
  | some norm ↦
      let skip = normalize_paths_from parser (i + 1) seen raws in
      let keep = prepend norm (normalize_paths_from parser (i + 1) (norm ∷ seen) raws) in
      if str_eq norm [] then skip else if member norm seen then skip else keep
]

unfoldable pub normalize_paths : UrlParser → List Str → Outcome
normalize_paths parser raws = normalize_paths_from parser 0 [] raws

-- `strings.ContainsAny(t, "\r\n")`
unfoldable pub has_line_break : Str → Bool
has_line_break t = any (λ c. c == 13 || c == 10) t

-- The loop of `NormalizeTags`.
unfoldable pub normalize_tags_from : ℕ → List Str → List Str → Outcome
normalize_tags_from i seen [] = done []
normalize_tags_from i seen (raw ∷ raws) =
    let skip = normalize_tags_from (i + 1) seen raws in
    let keep =
      prepend (trim_space raw) (normalize_tags_from (i + 1) (trim_space raw ∷ seen) raws) in
    if str_eq (trim_space raw) []
    then skip
    else if has_line_break (trim_space raw)
    then failed_at i
    else if member (trim_space raw) seen
    then skip
    else keep

unfoldable pub normalize_tags : List Str → Outcome
normalize_tags raws = normalize_tags_from 0 [] raws

prepend-done :
    (t : Str) (o : Outcome) (out : List Str)
    → prepend t o ≡ done out
    → (ts : List Str) × (o ≡ done ts) × (out ≡ t ∷ ts)
unfolding prepend
prepend-done t (failed_at i) out h = absurd cc
prepend-done t (done ts) out h = (ts, refl, cc)

-- A list of paths or tags that a request can leave with: no repetition, and each item passes `P`.
pub record IsClean (P : Str → Type 0) (seen out : List Str) : Type 0 where
  pub fresh : Fresh seen out
  pub distinct : Distinct out
  pub all : All P out

IsClean-cons :
    (P : Str → Type 0) (x : Str) (seen out : List Str)
    → member x seen ≡ false
    → P x
    → IsClean P (x ∷ seen) out
    → IsClean P seen (x ∷ out)
unfolding Fresh Distinct
IsClean-cons P x seen out new p ok = record {
  fresh = (new, Fresh-tail x seen out ok.fresh);
  distinct = (Fresh-head x seen out ok.fresh, ok.distinct);
  all = (p, ok.all);
}

IsClean-nil : (P : Str → Type 0) (seen out : List Str) → done [] ≡ done out → IsClean P seen out
unfolding Fresh Distinct
IsClean-nil P seen [] e = record { fresh = tt; distinct = tt; all = tt }
IsClean-nil P seen (x ∷ out) e = absurd cc

-- A text without the spaces around it, not empty, and on one line.
pub IsTag : Str → Type 0
IsTag t = (raw : Str) × (t ≡ trim_space raw) × (t ≢ []) × (has_line_break t ≡ false)

tags_from-IsClean :
    (i : ℕ) (seen raws out : List Str)
    → normalize_tags_from i seen raws ≡ done out
    → IsClean IsTag seen out
unfolding normalize_tags_from IsTag
tags_from-IsClean i seen [] out h = IsClean-nil IsTag seen out h
tags_from-IsClean i seen (raw ∷ raws) out h = elim (Bool-cases (str_eq (trim_space raw) [])) [
  | inl blank ↦ tags_from-IsClean (i + 1) seen raws out (simp (blank, normalize_tags_from) at h)
  | inr full ↦ elim (Bool-cases (has_line_break (trim_space raw))) [
    | inl bad ↦ absurd (let h' = simp (full, bad, normalize_tags_from) at h in cc)
    | inr good ↦ elim (Bool-cases (member (trim_space raw) seen)) [
      | inl old ↦
          tags_from-IsClean (i + 1) seen raws out (simp (full, good, old, normalize_tags_from) at h)
      | inr new ↦
          let h' = simp (full, good, new, normalize_tags_from) at h in
          let (ts, e, is) = prepend-done (trim_space raw) _ out h' in
          let ne : trim_space raw ≢ [] =
            λ e0. absurd (ground (arith, full, str_eq_iff (trim_space raw) [], e0)) in
          subst (IsClean IsTag seen) (sym is) (
            IsClean-cons IsTag (trim_space raw) seen ts new (raw, refl, ne, good)
              (tags_from-IsClean (i + 1) (trim_space raw ∷ seen) raws ts e))
    ]
  ]
]

-- The tags that are accepted are distinct, trimmed, not empty, and have no line break.
pub normalize_tags-IsClean :
    (raws out : List Str) → normalize_tags raws ≡ done out → IsClean IsTag [] out
unfolding normalize_tags
normalize_tags-IsClean raws out h = tags_from-IsClean 0 [] raws out h

-- A path that starts with `/`.
pub IsRooted : Str → Type 0
IsRooted p = has_prefix p (str "/") ≡ true

rooted-IsRooted : (p : Str) → IsRooted (rooted p)
unfolding IsRooted rooted has_prefix
rooted-IsRooted [] = refl
rooted-IsRooted (c ∷ p) = ground arith

if-IsRooted : (b : Bool) (p q : Str) → IsRooted p → IsRooted q → IsRooted (if b then p else q)
if-IsRooted true p q hp hq = hp
if-IsRooted false p q hp hq = hq

absolute_path-IsRooted : (u : Url) → IsRooted (absolute_path u)
unfolding absolute_path rooted has_prefix
absolute_path-IsRooted u =
    if-IsRooted (str_eq u.path []) (str "/") (rooted u.path) (rooted-IsRooted [])
      (rooted-IsRooted u.path)

relative_path-IsRooted : (v : Str) (u : Url) (p : Str) → relative_path v u ≡ some p → IsRooted p
unfolding relative_path
relative_path-IsRooted v u p h =
    ground (arith, h, rooted-IsRooted (str "/"), rooted-IsRooted u.path)

from_absolute-IsRooted : (o : Option Url) (p : Str) → from_absolute o ≡ some p → IsRooted p
unfolding from_absolute
from_absolute-IsRooted none p h = absurd cc
from_absolute-IsRooted (some u) p h =
    let e : absolute_path u ≡ p = cc in subst IsRooted e (absolute_path-IsRooted u)

from_relative-IsRooted :
    (v : Str) (o : Option Url) (p : Str) → from_relative v o ≡ some p → IsRooted p
unfolding from_relative
from_relative-IsRooted v none p h = absurd cc
from_relative-IsRooted v (some u) p h = relative_path-IsRooted v u p h

normalize_path-IsRooted :
    (parser : UrlParser) (raw p : Str)
    → normalize_path parser raw ≡ some p
    → str_eq p [] ≡ false
    → IsRooted p
unfolding normalize_path
normalize_path-IsRooted parser raw p h ne = elim (Bool-cases (str_eq (trim_space raw) [])) [
  | inl blank ↦
      let h' : some [] ≡ some p = simp (blank, normalize_path) at h in
      absurd (ground (arith, str_eq_iff p [], h', ne))
  | inr full ↦
      elim (Bool-cases (
        has_prefix (trim_space raw) (str "http://")
        || has_prefix (trim_space raw) (str "https://"))) [
          | inl a ↦
              from_absolute-IsRooted (parser.parse (trim_space raw)) p
                (simp (full, a, normalize_path) at h)
          | inr r ↦
              from_relative-IsRooted (trim_space raw) (parser.parse_request_uri (trim_space raw)) p
                (simp (full, r, normalize_path) at h)
        ]
]

paths_from-IsClean :
    (parser : UrlParser) (i : ℕ) (seen raws out : List Str)
    → normalize_paths_from parser i seen raws ≡ done out
    → IsClean IsRooted seen out
unfolding normalize_paths_from
paths_from-IsClean parser i seen [] out h = IsClean-nil IsRooted seen out h
paths_from-IsClean parser i seen (raw ∷ raws) out h =
    elim (Option-cases (normalize_path parser raw)) [
      | inl e ↦ absurd (let h' = simp (e, normalize_paths_from) at h in cc)
      | inr (norm, e) ↦ elim (Bool-cases (str_eq norm [])) [
        | inl blank ↦
            paths_from-IsClean parser (i + 1) seen raws out
              (simp (e, blank, normalize_paths_from) at h)
        | inr full ↦ elim (Bool-cases (member norm seen)) [
          | inl old ↦
              paths_from-IsClean parser (i + 1) seen raws out
                (simp (e, full, old, normalize_paths_from) at h)
          | inr new ↦
              let h' = simp (e, full, new, normalize_paths_from) at h in
              let (ts, f, is) = prepend-done norm _ out h' in
              subst (IsClean IsRooted seen) (sym is) (
                IsClean-cons IsRooted norm seen ts new
                  (normalize_path-IsRooted parser raw norm e full)
                  (paths_from-IsClean parser (i + 1) (norm ∷ seen) raws ts f))
        ]
      ]
    ]

-- The paths that are accepted are distinct, and each starts with `/`.
pub normalize_paths-IsClean :
    (parser : UrlParser) (raws out : List Str)
    → normalize_paths parser raws ≡ done out
    → IsClean IsRooted [] out
unfolding normalize_paths
normalize_paths-IsClean parser raws out h = paths_from-IsClean parser 0 [] raws out h
