-- ===== src/Proxy/Headers/Exposed.antt =====
-- `ensureExposedHeader` of internal/wait0/proxy/headers.go.
use wait.Base.{
  ℕ, ◌≡◌, refl, sym, ap, ◌∙◌, Bool, true, false, ◌||◌, List, [], ◌∷◌, ◌++◌, Str, str, str_eq,
  str_eq_refl, insert, lookup-insert_self, equal_fold, fold_case, map, split, split_at, trim_space,
  trim_left, is_space, any, ◌==◌, Bool-cases, inl, inr, arith,
}
use mathlib.Core.List.{append-nil, append_assoc}
use wait.Cache.Entry.{Header}
use wait.Proxy.Origin.{header_values}
use wait.Proxy.Headers.{expose, join, lists, expose_beside, ensure_exposed_header}

any-append {ℓ} :
    {A : Type ℓ} (p : A → Bool) (xs ys : List A) → any p (xs ++ ys) ≡ (any p xs || any p ys)
any-append p [] ys = refl
any-append p (x ∷ xs) ys = ground (arith, any-append p xs ys)

split_at-append :
    (sep : ℕ) (cur s t : Str)
    → split_at sep cur (s ++ sep ∷ t) ≡ split_at sep cur s ++ split_at sep [] t
unfolding split_at
split_at-append sep cur [] t = ground arith
split_at-append sep cur (c ∷ s) t = elim (Bool-cases (c == sep)) [
  | inl e ↦ simp (e, split_at) (ap (λ x. cur ∷ x) (split_at-append sep [] s t))
  | inr e ↦ simp (e, split_at) (split_at-append sep (cur ++ c ∷ []) s t)
]

split_at_whole :
    (sep : ℕ) (cur s : Str) → any (λ c. c == sep) s ≡ false → split_at sep cur s ≡ (cur ++ s) ∷ []
unfolding split_at
split_at_whole sep cur [] e = ap (λ x. x ∷ []) (sym (append-nil cur))
split_at_whole sep cur (c ∷ s) e =
    let ne : (c == sep) ≡ false = ground (arith, e) in
    let rest : any (λ x. x == sep) s ≡ false = ground (arith, e) in
    simp (ne, split_at)
      (split_at_whole sep (cur ++ c ∷ []) s rest ∙ ap (λ x. x ∷ []) (append_assoc cur (c ∷ []) s))

equal_fold_refl : (s : Str) → equal_fold s s ≡ true
unfolding equal_fold
equal_fold_refl s = str_eq_refl (map fold_case s)

trim_space_blank : (s : Str) → trim_space (32 ∷ s) ≡ trim_space s
unfolding trim_space trim_left is_space
trim_space_blank s = refl

-- A name of a header, as the program gives it.
pub record IsName (name : Str) : Type 0 where
  pub full : str_eq name [] ≡ false
  pub trimmed : trim_space name ≡ name
  pub whole : any (λ c. c == b',') name ≡ false

lists-last : (s name : Str) → IsName name → lists (s ++ str ", " ++ name) name ≡ true
unfolding lists split
lists-last s name ok =
    let parts =
      split_at-append b',' [] s (32 ∷ name)
      ∙ ap (λ x. split_at b',' [] s ++ x) (split_at_whole b',' [] (32 ∷ name) (ok.whole)) in
    let found : equal_fold (trim_space (32 ∷ name)) name ≡ true =
      ap (λ x. equal_fold x name) (trim_space_blank name ∙ ok.trimmed) ∙ equal_fold_refl name in
    ap (λ x. lists x name) (append_assoc s (str ", ") name)
    ∙ (ap (any (λ part. equal_fold (trim_space part) name)) parts
        ∙ (any-append (λ part. equal_fold (trim_space part) name) (split_at b',' [] s)
              ((32 ∷ name) ∷ [])
            ∙ ground (arith, found)))

lists_self : (name : Str) → IsName name → lists name name ≡ true
unfolding lists split
lists_self name ok =
    ap (any (λ part. equal_fold (trim_space part) name)) (split_at_whole b',' [] name ok.whole)
    ∙ ground (arith, ap (λ x. equal_fold x name) ok.trimmed ∙ equal_fold_refl name)

-- Whether a part of the values, which commas part, is the name, but for spaces around it and case.
unfoldable pub names : List Str → Str → Bool
names vs name = any (λ v. any (λ part. equal_fold (trim_space part) name) (split v b',')) vs

-- Whether the list of the exposed headers has the name.
unfoldable pub exposes : Header → Str → Bool
exposes h name = names (header_values h (str "Access-Control-Expose-Headers")) name

lists-join :
    (v : Str) (vs : List Str) (name : Str) → lists (join (v ∷ vs)) name ≡ names (v ∷ vs) name
unfolding lists join names split
lists-join v [] name = ground arith
lists-join v (w ∷ vs) name =
    let test : Str → Bool = λ part. equal_fold (trim_space part) name in
    ap (λ x. lists x name) (append_assoc v (str ",") (join (w ∷ vs)))
    ∙ (ap (any test) (split_at-append b',' [] v (join (w ∷ vs)))
        ∙ (any-append test (split_at b',' [] v) (split_at b',' [] (join (w ∷ vs)))
            ∙ ap (λ b. any test (split_at b',' [] v) || b) (lists-join w vs name)))

names_one : (v name : Str) → lists v name ≡ true → names (v ∷ []) name ≡ true
unfolding lists names
names_one v name h = ground (arith, h)

header_values-insert :
    (h : Header) (v : Str) → header_values (insert expose (v ∷ []) h) expose ≡ v ∷ []
unfolding header_values
header_values-insert h v = simp (lookup-insert_self expose (v ∷ []) h, header_values)

expose_beside-exposes :
    (h : Header) (name : Str) (vs : List Str)
    → IsName name
    → header_values h expose ≡ vs
    → exposes (expose_beside h name vs) name ≡ true
unfolding exposes expose_beside join names
expose_beside-exposes h name [] ok e =
    ap (λ x. names x name) (header_values-insert h name) ∙ names_one name name (lists_self name ok)
expose_beside-exposes h name (v ∷ vs) ok e = elim (Bool-cases (lists (join (v ∷ vs)) name)) [
  | inl there ↦
      simp (there, expose_beside) (ap (λ x. names x name) e ∙ (sym (lists-join v vs name) ∙ there))
  | inr missing ↦
      simp (missing, expose_beside)
        (ap (λ x. names x name) (header_values-insert h _)
          ∙ names_one _ name (lists-last (trim_space (join (v ∷ vs))) name ok))
]

expose_beside_again :
    (h : Header) (name : Str) (vs : List Str)
    → header_values h expose ≡ vs
    → exposes h name ≡ true
    → str_eq name [] ≡ false
    → expose_beside h name vs ≡ h
unfolding exposes expose_beside join names
expose_beside_again h name [] e there full =
    absurd (let e' : false ≡ true = ap (λ x. names x name) (sym e) ∙ there in cc)
expose_beside_again h name (v ∷ vs) e there full =
    simp (lists-join v vs name ∙ (ap (λ x. names x name) (sym e) ∙ there), expose_beside) refl

-- The list of the exposed headers has a name that is to be exposed: after the call it is a part of
-- one of the values, between their commas, but for spaces around it and case, and a further call
-- changes nothing. The name is not blank, has no comma and no space
-- around it.
pub ensure_exposed_header-exposes :
    (h : Header) (name : Str)
    → IsName name
    → (exposes (ensure_exposed_header h name) name ≡ true)
      × (ensure_exposed_header (ensure_exposed_header h name) name ≡ ensure_exposed_header h name)
unfolding ensure_exposed_header
ensure_exposed_header-exposes h name ok =
    let first = expose_beside-exposes h name (header_values h expose) ok refl in
    let h' = expose_beside h name (header_values h expose) in
    simp (ok.full, ensure_exposed_header)
      (first, expose_beside_again h' name (header_values h' expose) refl first ok.full)
