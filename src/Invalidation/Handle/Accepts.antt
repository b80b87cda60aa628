-- ===== src/Invalidation/Handle/Accepts.antt =====
-- What `Handle` of internal/wait0/invalidation/controller.go accepts.
use mathlib.Core.Path.{subst}
use wait.Base.{
  ℕ, ◌+◌, ◌≡◌, ◌≤◌, ◌<◌, refl, sym, ap, ◌∙◌, Bool, true, false, ◌&&◌, Option, none, some, List, [],
  ◌∷◌, ◌++◌, ◌⊎◌, inl, inr, Str, ◌==◌, length, length-append, slt, ltb, arith, Bool-cases,
  Option-cases,
}
use wait.Auth.{Authenticator, Principal, authenticate_bearer, authorized_for_scope}
use wait.Invalidation.Normalize.{
  Outcome, failed_at, done, normalize_paths, normalize_tags, normalize_paths-IsClean,
  normalize_tags-IsClean, IsClean, IsRooted, IsTag,
}
use wait.Invalidation.Handle.{
  Config, Job, HttpRequest, Body, invalid, trailing, request, Libraries, Refusal, Reply, refused,
  accepted, write_scope, check_media, check_actor, check_limits, check_tags, check_paths,
  check_body, offer_job, handle_actor, handle,
}

-- The lists that a job may have.
pub record IsNamed (cfg : Config) (paths tags : List Str) : Type 0 where
  pub paths_clean : IsClean IsRooted [] paths
  pub tags_clean : IsClean IsTag [] tags
  pub some_named : 0 < length paths + length tags
  pub paths_limit : cfg.hard_limits ≡ true → slt cfg.max_paths (length paths) ≡ false
  pub tags_limit : cfg.hard_limits ≡ true → slt cfg.max_tags (length tags) ≡ false

-- The two ways in which a request to an endpoint with a queue ends.
pub data Answered (cfg : Config) (authn : Option Authenticator) (r : HttpRequest) (queue : List Job)
    : Option (List Job) × Reply → Type 0 where
  kept : (refusal : Refusal) → Answered cfg authn r queue (some queue, refused refusal)
  queued :
      (job : Job) (actor : Principal)
      → cfg.enabled ≡ true
      → authenticate_bearer authn r.authorization ≡ some actor
      → authorized_for_scope actor write_scope ≡ true
      → job.actor_id ≡ actor.id
      → IsNamed cfg job.paths job.tags
      → length (queue ++ job ∷ []) ≤ cfg.queue_size
      → Answered cfg authn r queue (some (queue ++ job ∷ []), accepted job)

inr-of : {A B : Type 0} {x y : B} → ◌≡◌ {A = A ⊎ B} (inr x) (inr y) → x ≡ y
inr-of e = cc

and_false : (a b : Bool) → (a && b) ≡ false → b ≡ true → a ≡ false
and_false a b h e = ground arith

check_limits-IsNamed :
    (cfg : Config) (paths tags ps ts : List Str)
    → IsClean IsRooted [] paths
    → IsClean IsTag [] tags
    → check_limits cfg paths tags ≡ inr (ps, ts)
    → IsNamed cfg ps ts
unfolding check_limits
check_limits-IsNamed cfg paths tags ps ts hp ht h =
    elim (Bool-cases (length paths == 0 && length tags == 0)) [
      | inl e ↦ absurd (let h' = simp (e, check_limits) at h in cc)
      | inr e ↦ elim (Bool-cases (slt cfg.max_paths (length paths) && cfg.hard_limits)) [
        | inl f ↦ absurd (let h' = simp (e, f, check_limits) at h in cc)
        | inr f ↦ elim (Bool-cases (slt cfg.max_tags (length tags) && cfg.hard_limits)) [
          | inl g ↦ absurd (let h' = simp (e, f, g, check_limits) at h in cc)
          | inr g ↦
              let h' : ◌≡◌ {A = Refusal ⊎ (List Str × List Str)} (inr (paths, tags))
                  (inr (ps, ts)) =
                simp (e, f, g, check_limits) at h in
              subst (λ x. IsNamed cfg x.0 x.1) (inr-of h')
                (record {
                  paths_clean = hp;
                  tags_clean = ht;
                  some_named = ground (arith, e);
                  paths_limit = and_false (slt cfg.max_paths (length paths)) cfg.hard_limits f;
                  tags_limit = and_false (slt cfg.max_tags (length tags)) cfg.hard_limits g;
                })
        ]
      ]
    ]

check_body-IsNamed :
    (libs : Libraries) (cfg : Config) (b : Body) (ps ts : List Str)
    → check_body libs cfg b ≡ inr (ps, ts)
    → IsNamed cfg ps ts
unfolding check_body check_paths check_tags
check_body-IsNamed libs cfg invalid ps ts h = absurd cc
check_body-IsNamed libs cfg trailing ps ts h = absurd cc
check_body-IsNamed libs cfg (request paths tags) ps ts h =
    go (normalize_paths libs.urls paths) (normalize_tags tags) refl refl h
  where
    go :
        (o o' : Outcome)
        → normalize_paths libs.urls paths ≡ o
        → normalize_tags tags ≡ o'
        → check_paths cfg o tags ≡ inr (ps, ts)
        → IsNamed cfg ps ts
    go (failed_at i) o' e e' h = absurd cc
    go (done p) (failed_at i) e e' h = absurd (let h' = rw e' at h in cc)
    go (done p) (done t) e e' h =
        check_limits-IsNamed cfg p t ps ts (normalize_paths-IsClean libs.urls paths p e)
          (normalize_tags-IsClean tags t e') (rw e' at h)

check_media-enabled :
    (libs : Libraries) (cfg : Config) (r : HttpRequest)
    → check_media libs cfg r ≡ none
    → cfg.enabled ≡ true
unfolding check_media
check_media-enabled libs cfg r h = elim (Bool-cases cfg.enabled) [
  | inl e ↦ e
  | inr e ↦ absurd (let h' = simp (e, check_media) at h in cc)
]

check_actor-allowed :
    (authn : Option Authenticator) (r : HttpRequest) (actor : Principal)
    → check_actor authn r ≡ inr actor
    → (authenticate_bearer authn r.authorization ≡ some actor)
      × (authorized_for_scope actor write_scope ≡ true)
unfolding check_actor
check_actor-allowed authn r actor h =
    elim (Option-cases (authenticate_bearer authn r.authorization)) [
      | inl e ↦ absurd (let h' = simp (e, check_actor) at h in cc)
      | inr (a, e) ↦ elim (Bool-cases (authorized_for_scope a write_scope)) [
        | inr f ↦ absurd (let h' = simp (e, f, check_actor) at h in cc)
        | inl f ↦
            let h' : ◌≡◌ {A = Refusal ⊎ Principal} (inr a) (inr actor) =
              simp (e, f, check_actor) at h in
            (
              e ∙ ap some (inr-of h'),
              ap (λ x. authorized_for_scope x write_scope) (sym (inr-of h')) ∙ f,
            )
      ]
    ]

either : {A B : Type 0} (x : A ⊎ B) → ((a : A) × (x ≡ inl a)) ⊎ ((b : B) × (x ≡ inr b))
either (inl a) = inl (a, refl)
either (inr b) = inr (b, refl)

module _ (libs : Libraries) (cfg : Config) (authn : Option Authenticator) (random : Str) (now : ℕ)
    (queue : List Job) (r : HttpRequest) where
  offer_job-Answered :
      (job : Job) (actor : Principal)
      → cfg.enabled ≡ true
      → authenticate_bearer authn r.authorization ≡ some actor
      → authorized_for_scope actor write_scope ≡ true
      → job.actor_id ≡ actor.id
      → IsNamed cfg job.paths job.tags
      → Answered cfg authn r queue (offer_job cfg queue job)
  unfolding offer_job
  offer_job-Answered job actor on auth scope id named =
      elim (Bool-cases (ltb (length queue) cfg.queue_size)) [
        | inl room ↦
            simp (room, offer_job)
              (queued job actor on auth scope id named
                (ground (arith, room, length-append queue (job ∷ []))))
        | inr full ↦ simp (full, offer_job) (kept _)
      ]

  -- A request to an endpoint with a queue is refused and the queue stays as it is, or it is accepted
  -- and the queue has one more job at its end. It is accepted only where the endpoint is enabled, the
  -- bearer token is that of a principal with the scope `invalidation:write`, whose name the job has,
  -- the paths (distinct, each starting with `/`) and tags (distinct, trimmed, not empty, on one line) of the
  -- job are not both empty and within the hard limits, and the queue is not longer than its size.
  pub handle-Answered : Answered cfg authn r queue (handle libs cfg authn random now (some queue) r)
  unfolding handle handle_actor
  handle-Answered = elim (Option-cases (check_media libs cfg r)) [
    | inr (refusal, e) ↦ simp (e, handle) (kept refusal)
    | inl e ↦ elim (either (check_actor authn r)) [
      | inl (refusal, f) ↦ simp (e, f, handle) (kept refusal)
      | inr (actor, f) ↦
          elim (either (check_body libs cfg (libs.decode cfg.max_body_bytes r.body))) [
            | inl (refusal, g) ↦ simp (e, f, g, handle, handle_actor) (kept refusal)
            | inr ((paths, tags), g) ↦
                let (auth, scope) = check_actor-allowed authn r actor f in
                simp (e, f, g, handle, handle_actor)
                  (offer_job-Answered _ actor (check_media-enabled libs cfg r e) auth scope refl (
                    check_body-IsNamed libs cfg (libs.decode cfg.max_body_bytes r.body) paths tags
                      g))
          ]
    ]
  ]
