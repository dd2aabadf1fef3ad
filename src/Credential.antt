-- ===== src/Credential.antt =====
-- `valid_credential_protocol` of runtime/templates/runtime_metadata.py: the attributes that Git and
-- a credential helper exchange.
pub mod Lines
pub mod Accepted
mod Tests
use clamp.Prelude.{
  Bool, false, ◌&&◌, ◌||◌, not, Option, none, some, List, [], ◌∷◌, if◌then◌else◌, any, is_empty,
}
use clamp.Text.{Text, codes, mem, split, split_once, contains}
use clamp.Utf8.{Bytes, decode}

abbrev pub request_names : List Text
request_names =
    codes "url"
    ∷ codes "protocol"
    ∷ codes "host"
    ∷ codes "path"
    ∷ codes "username"
    ∷ codes "password"
    ∷ codes "password_expiry_utc"
    ∷ codes "oauth_refresh_token"
    ∷ codes "capability[]"
    ∷ codes "wwwauth[]"
    ∷ codes "state[]"
    ∷ []

abbrev pub response_names : List Text
response_names =
    codes "username"
    ∷ codes "password"
    ∷ codes "password_expiry_utc"
    ∷ codes "oauth_refresh_token"
    ∷ []

-- `allowed`
unfoldable pub allowed_names : Bool → List Text
allowed_names response = if response then response_names else request_names

unfoldable pub repeated_names : List Text
repeated_names = codes "capability[]" ∷ codes "wwwauth[]" ∷ codes "state[]" ∷ []

-- The tests on one line that is not empty: its key, if the line is allowed behind the keys seen.
unfoldable pub line_key : List Text → List Text → Text → Option Text
line_key allowed observed line =
    let key : Text = (split_once b'=' line).0 in
    let value : Text = (split_once b'=' line).1 in
    if not (contains b'=' line)
    then none
    else if not (mem key allowed)
        || mem key observed && not (mem key repeated_names)
        || is_empty value
    then none
    else some key

-- The loop over the lines, with the keys seen; `none` is `return False`. An empty line ends it, and
-- nothing but empty lines may follow.
unfoldable pub read_lines : List Text → List Text → List Text → Option (List Text)
read_lines allowed observed [] = some observed
read_lines allowed observed ([] ∷ rest) =
    if any (λ l. not (is_empty l)) rest then none else some observed
read_lines allowed observed ((c ∷ line) ∷ rest) = elim (line_key allowed observed (c ∷ line)) [
  | none ↦ none
  | some key ↦ read_lines allowed (key ∷ observed) rest
]

-- `not response or {"username", "password"}.issubset(observed)`
unfoldable pub is_answered : Bool → List Text → Bool
is_answered response observed =
    not response || mem (codes "username") observed && mem (codes "password") observed

unfoldable pub valid_lines : Bool → List Text → Bool
valid_lines response lines = elim (read_lines (allowed_names response) [] lines) [
  | none ↦ false
  | some observed ↦ is_answered response observed
]

unfoldable pub valid_credential_protocol : Bytes → Bool → Bool
valid_credential_protocol contents response =
    if contains 0 contents || contains 13 contents
    then false
    else elim (decode contents) [ none ↦ false | some text ↦ valid_lines response (split 10 text) ]
