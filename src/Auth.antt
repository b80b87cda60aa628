-- ===== src/Auth.antt =====
-- internal/wait0/auth/bearer.go: bearer tokens and their scopes.
pub mod Grants
mod Tests
use wait.Base.{
  Bool, true, false, not, ◌&&◌, ◌==◌, Option, none, some, List, [], ◌∷◌, ◌++◌, Str, str, str_eq,
  member, length, trim_space, is_space, equal_fold, if◌then◌else◌, ℕ,
}

pub record TokenConfig : Type 0 where
  pub id : Str
  pub token : Str
  pub scopes : List Str

-- A set of scopes is the list of its members.
pub record Principal : Type 0 where
  pub id : Str
  pub scopes : List Str

pub record AuthToken : Type 0 where
  pub id : Str
  pub token : Str
  pub scopes : List Str

pub record Authenticator : Type 0 where
  pub tokens : List AuthToken

-- The loop over the scopes of one token.
unfoldable pub scope_set : List Str → List Str
scope_set [] = []
scope_set (s ∷ ss) = if str_eq (trim_space s) [] then scope_set ss else trim_space s ∷ scope_set ss

unfoldable pub to_token : TokenConfig → AuthToken
to_token c = record { id = c.id; token = c.token; scopes = scope_set c.scopes }

unfoldable pub tokens_of : List TokenConfig → List AuthToken
tokens_of [] = []
tokens_of (c ∷ cs) = to_token c ∷ tokens_of cs

unfoldable pub new_authenticator : List TokenConfig → Authenticator
new_authenticator configs = record { tokens = tokens_of configs }

-- strings.Fields, with the field that is being read.
unfoldable pub fields_from : Str → Str → List Str
fields_from cur [] = if str_eq cur [] then [] else cur ∷ []
fields_from cur (c ∷ s) =
    let fresh = fields_from [] s in
    let longer = fields_from (cur ++ c ∷ []) s in
    if is_space c then (if str_eq cur [] then fresh else cur ∷ fresh) else longer

unfoldable pub fields : Str → List Str
fields s = fields_from [] s

-- The end of `parseBearerToken`, on the fields of the header.
unfoldable pub bearer_token : List Str → Option Str
bearer_token (scheme ∷ t ∷ []) =
    if not (equal_fold scheme (str "Bearer"))
    then none
    else if str_eq (trim_space t) []
    then none
    else some (trim_space t)
bearer_token _ = none

unfoldable pub parse_bearer_token : Str → Option Str
parse_bearer_token auth_header =
    let h = trim_space auth_header in if str_eq h [] then none else bearer_token (fields h)

-- The loop over the tokens.
unfoldable pub find_token : Str → List AuthToken → Option Principal
find_token tok [] = none
find_token tok (t ∷ ts) =
    if str_eq tok t.token then some (record { id = t.id; scopes = t.scopes }) else find_token tok ts

-- The receiver is `none` where the pointer is nil.
unfoldable pub authenticate_bearer : Option Authenticator → Str → Option Principal
authenticate_bearer none auth_header = none
authenticate_bearer (some a) auth_header = elim (parse_bearer_token auth_header) [
  | none ↦ none
  | some tok ↦ find_token tok a.tokens
]

unfoldable pub authorized_for_scope : Principal → Str → Bool
authorized_for_scope p required_scope =
    let req = trim_space required_scope in
    if str_eq req [] then true else if length p.scopes == 0 then false else member req p.scopes
