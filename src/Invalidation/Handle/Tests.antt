-- ===== src/Invalidation/Handle/Tests.antt =====
-- Runs of internal/wait0/invalidation, with libraries that read every body as one request.
use wait.Base.{
  ◌≡◌, refl, true, Option, some, none, [], ◌∷◌, str, str_eq, member, trim_space, trim_left,
  is_space, equal_fold, fold_case, has_prefix,
}
use wait.Auth.{
  Authenticator, scope_set, to_token, tokens_of, new_authenticator, fields, fields_from,
  bearer_token, parse_bearer_token, find_token, authenticate_bearer, authorized_for_scope,
}
use wait.Invalidation.Normalize.{
  UrlParser, prepend, rooted, absolute_path, relative_path, from_absolute, from_relative,
  normalize_path, normalize_paths_from, normalize_paths, has_line_break, normalize_tags_from,
  normalize_tags, IsClean, IsRooted, normalize_paths-IsClean,
}
use wait.Invalidation.Handle.{
  Config, Job, HttpRequest, request, Libraries, accepted, refused, unauthorized, write_scope,
  check_media, check_actor, check_limits, check_tags, check_paths, check_body, offer_job,
  handle_actor, handle,
}
use wait.Invalidation.Handle.Accepts.{Answered, handle-Answered}

program : Unit {0}
unfolding str_eq member trim_space trim_left is_space equal_fold fold_case has_prefix scope_set
    to_token tokens_of new_authenticator fields fields_from bearer_token parse_bearer_token
    find_token authenticate_bearer authorized_for_scope prepend rooted absolute_path relative_path
    from_absolute from_relative normalize_path normalize_paths_from normalize_paths has_line_break
    normalize_tags_from normalize_tags check_media check_actor check_limits check_tags check_paths
    check_body offer_job handle_actor handle
program = tt

-- A parser that takes the whole text as the path.
abbrev plain : UrlParser
plain = record {
  parse = λ v. none;
  parse_request_uri = λ v. some (record { path = v; raw_query = []; fragment = [] });
}

abbrev libs : Libraries
libs = record {
  media_type = λ t. some t;
  decode = λ limit b. request (str " /a" ∷ str "b" ∷ str "/a" ∷ []) (str "t" ∷ str " t " ∷ []);
  urls = plain;
}

abbrev cfg : Config
cfg = record {
  enabled = true;
  queue_size = 2;
  worker_concurrency = 1;
  max_body_bytes = 100;
  max_paths = 2;
  max_tags = 2;
  hard_limits = true;
}

abbrev authn : Option Authenticator
authn =
    some (record {
      tokens = record { id = str "ci"; token = str "s"; scopes = write_scope ∷ [] } ∷ [];
    })

abbrev post : HttpRequest
post = record {
  method = str "POST";
  content_type = str "application/json";
  authorization = str "Bearer s";
  remote_addr = str "r";
  user_agent = str "u";
  body = [];
}

abbrev job : Job
job = record {
  request_id = str "inv_x";
  actor_id = str "ci";
  paths = str "/a" ∷ str "/b" ∷ [];
  tags = str "t" ∷ [];
  received_at = 7;
  remote_addr = str "r";
  user_agent = str "u";
}

post-accepted : handle libs cfg authn (str "x") 7 (some []) post ≡ (some (job ∷ []), accepted job)
unfolding program
post-accepted = refl

post-unauthorized :
    handle libs cfg authn (str "x") 7 (some []) (record post { authorization = str "Bearer t" })
    ≡ (some [], refused unauthorized)
unfolding program
post-unauthorized = refl

handle-Answered_example :
    Answered cfg authn post [] (handle libs cfg authn (str "x") 7 (some []) post)
handle-Answered_example = handle-Answered libs cfg authn (str "x") 7 [] post

normalize_paths-IsClean_example : IsClean IsRooted [] (str "/a" ∷ str "/b" ∷ [])
unfolding program
normalize_paths-IsClean_example =
    normalize_paths-IsClean plain (str " /a" ∷ str "b" ∷ str "/a" ∷ []) (str "/a" ∷ str "/b" ∷ [])
      refl
