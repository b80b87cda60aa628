-- ===== src/Invalidation/Jobs/Resolves.antt =====
-- The keys of a job of internal/wait0/invalidation/controller.go, `resolveKeysByTags` and the paths.
use wait.Base.{
  ◌≡◌, ◌≢◌, ◌⊎◌, ◌↔◌, refl, sym, ap, ◌∙◌, true, false, ◌||◌, none, some, List, [], ◌∷◌, ◌++◌, Str,
  str, str_eq, str_eq_iff, trim_space, split, member, has_trimmed, member-trimmed_unique, any,
  Bool-cases, Option-cases, inl, inr, arith,
}
use wait.Cache.Entry.{Entry}
use wait.Cache.Ram.{ram_keys}
use wait.Cache.Disk.{Platform, disk_keys}
use wait.Cache.Ram as Memory
use wait.Cache.Disk as Stored
use wait.Proxy.Origin.{header_values}
use wait.Proxy.{Service}
use wait.Revalidation.Once.{peek_either}
use wait.Invalidation.Handle.{Job}
use wait.Invalidation.Cached.{split_all, entry_tags, key_tags}
use wait.Invalidation.Jobs.{has_tag, resolve_keys, member-resolve_keys}

-- One of the parts of the headers X-Wait0-Tag, which commas part, is the tag, but for spaces around it.
abbrev pub Carries : Entry → Str → Type 0
Carries ent t =
    any (λ v. any (λ part. str_eq (trim_space part) t) (split v b','))
      (header_values ent.header (str "X-Wait0-Tag"))
    ≡ true

has_trimmed-append :
    (t : Str) (xs ys : List Str)
    → has_trimmed t (xs ++ ys) ≡ (any (λ part. str_eq (trim_space part) t) xs || has_trimmed t ys)
unfolding has_trimmed
has_trimmed-append t [] ys = refl
has_trimmed-append t (x ∷ xs) ys = ground (arith, has_trimmed-append t xs ys)

has_trimmed-split_all :
    (t : Str) (vs : List Str)
    → has_trimmed t (split_all vs)
      ≡ any (λ v. any (λ part. str_eq (trim_space part) t) (split v b',')) vs
unfolding has_trimmed split_all
has_trimmed-split_all t [] = refl
has_trimmed-split_all t (v ∷ vs) =
    has_trimmed-append t (split v b',') (split_all vs)
    ∙ ap (λ b. any (λ part. str_eq (trim_space part) t) (split v b',') || b)
        (has_trimmed-split_all t vs)

member-entry_tags :
    (t : Str) (ent : Entry) → (member t (entry_tags ent) ≡ true) ↔ ((t ≢ []) × Carries ent t)
unfolding entry_tags member
member-entry_tags t ent =
    let vs = header_values ent.header (str "X-Wait0-Tag") in
    let is = member-trimmed_unique t [] (split_all vs) in
    let parts = has_trimmed-split_all t vs in
    (
      λ h. (
        λ empty. absurd (ground (arith, h, is, empty, str_eq_iff t [])),
        sym parts ∙ ground (arith, h, is),
      ),
      λ h.
          let full : str_eq t [] ≡ false = ground (arith, h.0, str_eq_iff t []) in
          is ∙ ground (arith, full, parts ∙ h.1),
    )

has_tag-some :
    (tags ts : List Str)
    → has_tag tags ts ≡ true
    → (t : Str) × (member t ts ≡ true) × (member t tags ≡ true)
unfolding has_tag member
has_tag-some tags [] h = absurd cc
has_tag-some tags (t ∷ ts) h = elim (Bool-cases (member t tags)) [
  | inl e ↦ (t, ground (arith, str_eq_iff t t), e)
  | inr e ↦
      let (u, there, of_job) = has_tag-some tags ts (ground (arith, h, e)) in
      (u, ground (arith, there), of_job)
]

some-has_tag :
    (tags ts : List Str) (t : Str)
    → member t ts ≡ true
    → member t tags ≡ true
    → has_tag tags ts ≡ true
unfolding has_tag member
some-has_tag tags [] t h e = absurd cc
some-has_tag tags (u ∷ ts) t h e = elim (Bool-cases (str_eq u t)) [
  | inl same ↦
      let here : member u tags ≡ true = ap (λ x. member x tags) ((str_eq_iff u t).0 same) ∙ e in
      ground (arith, here)
  | inr other ↦
      let rest = some-has_tag tags ts t (ground (arith, h, other)) e in ground (arith, rest)
]

module _ (p : Platform) where
  -- The entry of the key: that of memory, and that of the disk where memory has none.
  abbrev pub Found : Service p → Str → Entry → Type 0
  Found s k ent =
      (Memory.peek s.ram k ≡ some ent)
      ⊎ ((Memory.peek s.ram k ≡ none) × (Stored.peek p s.disk k ≡ some ent))

  -- The entry of the key has a tag of the job.
  pub record IsTagged (s : Service p) (tags : List Str) (k : Str) : Type 0 where
    pub ent : Entry
    pub found : Found s k ent
    pub tag : Str
    pub full : tag ≢ []
    pub of_job : member tag tags ≡ true
    pub carried : Carries ent tag

  peek_either-Found :
      (s : Service p) (k : Str) (ent : Entry) → (peek_either p k s ≡ some ent) ↔ Found s k ent
  unfolding peek_either
  peek_either-Found s k ent = elim (Option-cases (Memory.peek s.ram k)) [
    | inl e ↦ (
      λ h. inr (e, simp (e, peek_either) at h),
      λ f. elim f [
        | inl there ↦ absurd (let clash : none ≡ some ent = sym e ∙ there in cc)
        | inr there ↦ simp (e, peek_either) there.1
      ],
    )
    | inr (x, e) ↦ (
      λ h. inl (e ∙ (simp (e, peek_either) at h)),
      λ f. elim f [
        | inl there ↦ simp (e, peek_either) (sym e ∙ there)
        | inr there ↦ absurd (let clash : some x ≡ none = sym e ∙ there.0 in cc)
      ],
    )
  ]

  has_tag-IsTagged :
      (s : Service p) (tags : List Str) (k : Str)
      → (has_tag tags (key_tags p k s) ≡ true) ↔ IsTagged s tags k
  unfolding key_tags has_tag
  has_tag-IsTagged s tags k = (
    λ h. elim (Option-cases (peek_either p k s)) [
      | inl e ↦ absurd (let h' = simp (e, key_tags) at h in cc)
      | inr (ent, e) ↦
          let h' : has_tag tags (entry_tags ent) ≡ true = simp (e, key_tags) at h in
          let (t, there, of_job) = has_tag-some tags (entry_tags ent) h' in
          let (full, carried) = (member-entry_tags t ent).0 there in
          record {
            ent = ent;
            found = (peek_either-Found s k ent).0 e;
            tag = t;
            full = full;
            of_job = of_job;
            carried = carried;
          }
    ],
    λ ok.
        let e = (peek_either-Found s k ok.ent).1 ok.found in
        let there = (member-entry_tags ok.tag ok.ent).1 (ok.full, ok.carried) in
        simp (e, key_tags) (some-has_tag tags (entry_tags ok.ent) ok.tag there ok.of_job),
  )

  -- The keys of a job are exactly its paths, whether cached or not, and the keys of memory or of the
  -- disk whose entry (that of memory, where both have one) carries a tag of the job.
  pub resolve_keys-IsTagged :
      (k : Str) (job : Job) (s : Service p)
      → (member k (resolve_keys p job s) ≡ true) ↔ (
          (member k job.paths ≡ true)
          ⊎ (((member k (ram_keys s.ram) ≡ true) ⊎ (member k (disk_keys p s.disk) ≡ true))
              × IsTagged s job.tags k))
  resolve_keys-IsTagged k job s =
      let is = member-resolve_keys p k job s in
      let tagged = has_tag-IsTagged s job.tags k in
      (
        λ h. elim (Bool-cases (member k job.paths)) [
          | inl path ↦ inl path
          | inr other ↦
              let cached : (member k (ram_keys s.ram) || member k (disk_keys p s.disk)) ≡ true =
                ground (arith, h, is, other) in
              let has : has_tag job.tags (key_tags p k s) ≡ true = ground (arith, h, is, other) in
              inr (either k s cached, tagged.0 has)
        ],
        λ h. elim h [
          | inl path ↦ is ∙ ground (arith, path)
          | inr (cached, ok) ↦ let has = tagged.1 ok in is ∙ ground (arith, cached, has)
        ],
      )
    where
      either :
          (k : Str) (s : Service p)
          → (member k (ram_keys s.ram) || member k (disk_keys p s.disk)) ≡ true
          → (member k (ram_keys s.ram) ≡ true) ⊎ (member k (disk_keys p s.disk) ≡ true)
      either k s h = elim (Bool-cases (member k (ram_keys s.ram))) [
        | inl e ↦ inl e
        | inr e ↦ inr (ground (arith, h, e))
      ]
