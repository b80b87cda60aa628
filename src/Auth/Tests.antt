-- ===== src/Auth/Tests.antt =====
-- Runs of internal/wait0/auth/bearer.go.
use wait.Base.{
  ◌≡◌, ◌≢◌, refl, some, none, [], ◌∷◌, Str, str, trim_space, trim_left, is_space, str_eq,
  equal_fold, fold_case, member,
}
use wait.Auth.{
  TokenConfig, Principal, scope_set, to_token, tokens_of, new_authenticator, fields, fields_from,
  bearer_token, parse_bearer_token, find_token, authenticate_bearer, authorized_for_scope,
}
use wait.Auth.Grants.{Granted, authenticate_bearer-Granted}

program : Unit {0}
unfolding trim_space trim_left is_space str_eq equal_fold fold_case member scope_set to_token
    tokens_of new_authenticator fields fields_from bearer_token parse_bearer_token find_token
    authenticate_bearer authorized_for_scope
program = tt

abbrev writer : TokenConfig
writer = record { id = str "ci"; token = str "s3"; scopes = str " w " ∷ [] }

abbrev ci : Principal
ci = record { id = str "ci"; scopes = str "w" ∷ [] }

accepted :
    authenticate_bearer (some (new_authenticator (writer ∷ []))) (str " bearer  s3") ≡ some ci
unfolding program
accepted = refl

refused : authenticate_bearer (some (new_authenticator (writer ∷ []))) (str "Bearer s3 x") ≡ none
unfolding program
refused = refl

authenticate_bearer-Granted_example :
    (tok : Str) × (parse_bearer_token (str " bearer  s3") ≡ some tok)
    × (tok ≢ [])
    × Granted (str "ci") tok (trim_space (str "w")) (writer ∷ [])
unfolding program
authenticate_bearer-Granted_example =
    authenticate_bearer-Granted (writer ∷ []) (str " bearer  s3") (str "w") ci refl (λ e. absurd cc)
      refl
