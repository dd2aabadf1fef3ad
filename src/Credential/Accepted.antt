-- ===== src/Credential/Accepted.antt =====
-- Which exchanges `valid_credential_protocol` accepts.
use clamp.Prelude.{
  ◌≡◌, refl, ◌↔◌, Bool, true, false, ◌||◌, Option, none, some, List, [], if◌then◌else◌,
}
use mathlib.Core.Bool.{false≢true}
use clamp.Text.{Text, split, contains}
use clamp.Credential.{
  read_lines, Bytes, valid_credential_protocol, valid_lines, allowed_names, decode, is_answered,
}
use clamp.Credential.Lines.{IsExchange, read_lines_iff}

-- What an accepted exchange comes to: UTF-8 text with no NUL and no CR in it, that is attributes
-- and empty lines; a response holds a username and a password.
pub record IsProtocol (contents : Bytes) (response : Bool) : Type 0 where
  pub text : Text
  pub names : List Text
  pub no_nul : contains 0 contents ≡ false
  pub no_return : contains 13 contents ≡ false
  pub decoded : decode contents ≡ some text
  pub exchanged : IsExchange (allowed_names response) [] (split 10 text) names
  pub answered : is_answered response names ≡ true

test-some {ℓ} :
    {A : Type ℓ} (o : Option A) (f : A → Bool)
    → (elim o as (λ x. Bool) [ none ↦ false | some a ↦ f a ]) ≡ true
    → (a : A) × (o ≡ some a) × (f a ≡ true)
test-some none f h = absurd (false≢true h)
test-some (some a) f h = (a, refl, h)

neither-true :
    (a b c : Bool) → (if a || b then false else c) ≡ true → ((a ≡ false) × (b ≡ false)) × (c ≡ true)
neither-true false false c h = ((refl, refl), h)
neither-true true b c h = absurd (false≢true h)
neither-true false true c h = absurd (false≢true h)

valid_lines_sound :
    (response : Bool) (lines : List Text)
    → valid_lines response lines ≡ true
    → (names : List Text) × (read_lines (allowed_names response) [] lines ≡ some names)
      × (is_answered response names ≡ true)
unfolding valid_lines
valid_lines_sound response lines h =
    test-some (read_lines (allowed_names response) [] lines) (is_answered response) h

valid_sound :
    (contents : Bytes) (response : Bool)
    → valid_credential_protocol contents response ≡ true
    → IsProtocol contents response
unfolding valid_credential_protocol
valid_sound contents response h =
    let (clean, h₁) = neither-true (contains 0 contents) (contains 13 contents) _ h in
    let (text, decoded, h₂) =
      test-some (decode contents) (λ t. valid_lines response (split 10 t)) h₁ in
    let (names, read, answered) = valid_lines_sound response (split 10 text) h₂ in
    record {
      text = text;
      names = names;
      no_nul = clean.0;
      no_return = clean.1;
      decoded = decoded;
      exchanged = (read_lines_iff _ _ _ names).0 read;
      answered = answered;
    }

valid_complete :
    (contents : Bytes) (response : Bool)
    → IsProtocol contents response
    → valid_credential_protocol contents response ≡ true
unfolding valid_credential_protocol valid_lines
valid_complete contents response p =
    rw (p.no_nul, p.no_return)
      (rw (p.decoded, valid_credential_protocol)
        (rw ((read_lines_iff _ _ _ p.names).1 p.exchanged, valid_lines) p.answered))

-- `valid_credential_protocol` accepts exactly the exchanges of the protocol.
pub valid_credential_protocol_iff :
    (contents : Bytes) (response : Bool)
    → (valid_credential_protocol contents response ≡ true) ↔ IsProtocol contents response
valid_credential_protocol_iff contents response =
    (valid_sound contents response, valid_complete contents response)
