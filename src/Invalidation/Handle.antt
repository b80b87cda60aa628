-- ===== src/Invalidation/Handle.antt =====
-- internal/wait0/invalidation/controller.go, `Handle`: the checks of a request and the queue of jobs.
-- A stage of the checks gives the refusal or what the next stage needs.
pub mod Accepts
mod Tests
use wait.Base.{
  ℕ, ◌+◌, ◌≡◌, Bool, true, false, not, ◌&&◌, ◌||◌, Option, none, some, List, [], ◌∷◌, ◌++◌, ◌⊎◌,
  inl, inr, Str, str, str_eq, trim_space, if◌then◌else◌, ◌==◌, length, slt, is_pos, ltb,
}
use wait.Auth.{Authenticator, Principal, authenticate_bearer, authorized_for_scope}
use wait.Invalidation.Normalize.{
  UrlParser, Outcome, failed_at, done, normalize_paths, normalize_tags,
}

pub record Config : Type 0 where
  pub enabled : Bool
  pub queue_size : ℕ
  pub worker_concurrency : ℕ
  pub max_body_bytes : ℕ
  pub max_paths : ℕ
  pub max_tags : ℕ
  pub hard_limits : Bool

pub record Job : Type 0 where
  pub request_id : Str
  pub actor_id : Str
  pub paths : List Str
  pub tags : List Str
  pub received_at : ℕ
  pub remote_addr : Str
  pub user_agent : Str

-- What the handler reads of a request: the headers are what `Header.Get` gives.
pub record HttpRequest : Type 0 where
  pub method : Str
  pub content_type : Str
  pub authorization : Str
  pub remote_addr : Str
  pub user_agent : Str
  pub body : List ℕ

-- What the two calls of `Decode` give: an error of the first, something after the object, or the
-- lists of the object.
pub data Body : Type 0 where
  invalid : Body
  trailing : Body
  request : List Str → List Str → Body

-- `mime.ParseMediaType`, and the JSON decoder behind `http.MaxBytesReader` at its limit.
pub record Libraries : Type 0 where
  pub media_type : Str → Option Str
  pub decode : ℕ → List ℕ → Body
  pub urls : UrlParser

pub data Refusal : Type 0 where
  not_found : Refusal
  method_not_allowed : Refusal
  unsupported_media_type : Refusal
  unauthorized : Refusal
  forbidden : Refusal
  queue_unavailable : Refusal
  invalid_json : Refusal
  single_object : Refusal
  bad_path : ℕ → Refusal
  bad_tag : ℕ → Refusal
  nothing_named : Refusal
  too_many_paths : Refusal
  too_many_tags : Refusal
  queue_full : Refusal

-- A refusal is an error with its status; an accepted request has the identifier of the job.
pub data Reply : Type 0 where
  refused : Refusal → Reply
  accepted : Job → Reply

abbrev pub write_scope : Str
write_scope = str "invalidation:write"

-- The queue of `NewController`: `none` is the nil channel of a disabled endpoint.
unfoldable pub new_config : Config → Config
new_config cfg =
    if not cfg.enabled
    then cfg
    else if not (is_pos cfg.queue_size)
    then record cfg { queue_size = 128 }
    else cfg

unfoldable pub new_queue : Config → Option (List Job)
new_queue cfg = if not cfg.enabled then none else some []

-- From the method to the media type.
unfoldable pub check_media : Libraries → Config → HttpRequest → Option Refusal
check_media libs cfg r =
    if not cfg.enabled
    then some not_found
    else if not (str_eq r.method (str "POST"))
    then some method_not_allowed
    else if str_eq (trim_space r.content_type) []
    then some unsupported_media_type
    else (elim (libs.media_type (trim_space r.content_type)) [
      | none ↦ some unsupported_media_type
      | some t ↦
          if not (str_eq t (str "application/json")) then some unsupported_media_type else none
    ])

unfoldable pub check_actor : Option Authenticator → HttpRequest → Refusal ⊎ Principal
check_actor authn r = elim (authenticate_bearer authn r.authorization) [
  | none ↦ inl unauthorized
  | some actor ↦ if authorized_for_scope actor write_scope then inr actor else inl forbidden
]

-- The lists, and the limits on their lengths.
unfoldable pub check_limits : Config → List Str → List Str → Refusal ⊎ (List Str × List Str)
check_limits cfg paths tags =
    if length paths == 0 && length tags == 0
    then inl nothing_named
    else if slt cfg.max_paths (length paths) && cfg.hard_limits
    then inl too_many_paths
    else if slt cfg.max_tags (length tags) && cfg.hard_limits
    then inl too_many_tags
    else inr (paths, tags)

unfoldable pub check_tags : Config → List Str → Outcome → Refusal ⊎ (List Str × List Str)
check_tags cfg paths (failed_at i) = inl (bad_tag i)
check_tags cfg paths (done tags) = check_limits cfg paths tags

unfoldable pub check_paths : Config → Outcome → List Str → Refusal ⊎ (List Str × List Str)
check_paths cfg (failed_at i) tags = inl (bad_path i)
check_paths cfg (done paths) tags = check_tags cfg paths (normalize_tags tags)

unfoldable pub check_body : Libraries → Config → Body → Refusal ⊎ (List Str × List Str)
check_body libs cfg invalid = inl invalid_json
check_body libs cfg trailing = inl single_object
check_body libs cfg (request paths tags) = check_paths cfg (normalize_paths libs.urls paths) tags

-- The send that does not wait.
unfoldable pub offer_job : Config → List Job → Job → Option (List Job) × Reply
offer_job cfg queue job =
    if ltb (length queue) cfg.queue_size
    then (some (queue ++ job ∷ []), accepted job)
    else (some queue, refused queue_full)

-- From the queue to the reply, for the actor that was let in.
unfoldable pub handle_actor :
    Libraries
    → Config
    → Str
    → ℕ
    → Option (List Job)
    → HttpRequest
    → Principal
    → Option (List Job) × Reply
handle_actor libs cfg random now none r actor = (none, refused queue_unavailable)
handle_actor libs cfg random now (some queue) r actor =
    elim (check_body libs cfg (libs.decode cfg.max_body_bytes r.body)) [
      | inl refusal ↦ (some queue, refused refusal)
      | inr (paths, tags) ↦ offer_job cfg queue (record {
        request_id = str "inv_" ++ random;
        actor_id = actor.id;
        paths = paths;
        tags = tags;
        received_at = now;
        remote_addr = trim_space r.remote_addr;
        user_agent = trim_space r.user_agent;
      })
    ]

-- `Handle`, with the random text and the time: the queue after it, and the reply.
unfoldable pub handle :
    Libraries
    → Config
    → Option Authenticator
    → Str
    → ℕ
    → Option (List Job)
    → HttpRequest
    → Option (List Job) × Reply
handle libs cfg authn random now queue r = elim (check_media libs cfg r) [
  | some refusal ↦ (queue, refused refusal)
  | none ↦ elim (check_actor authn r) [
    | inl refusal ↦ (queue, refused refusal)
    | inr actor ↦ handle_actor libs cfg random now queue r actor
  ]
]
