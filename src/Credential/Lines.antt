-- ===== src/Credential/Lines.antt =====
-- Which lines of an exchange the loop of `valid_credential_protocol` accepts, as lists of
-- attributes.
use clamp.Prelude.{
  ℕ, ◌≡◌, refl, sym, ◌∙◌, ap, ◌↔◌, inl, inr, Bool, true, false, ◌&&◌, ◌||◌, not, Option, none, some,
  List, [], ◌∷◌, ◌++◌, Bool-cases, if◌then◌else◌, all, any, is_empty, arith, ◌==◌, subst,
}
use clamp.Text.{Text, mem, split_once, contains}
use clamp.Credential.{line_key, read_lines, repeated_names}

-- A name and its value.
abbrev pub Attribute : Type 0
Attribute = Text × Text

abbrev pub rendered : Attribute → Text
rendered a = a.0 ++ (b'=' ∷ a.1)

abbrev pub rendered_all : List Attribute → List Text
rendered_all [] = []
rendered_all (a ∷ rest) = rendered a ∷ rendered_all rest

-- An attribute that may stand behind those whose names were seen.
pub record IsAllowed (allowed observed : List Text) (a : Attribute) : Type 0 where
  pub known : mem a.0 allowed ≡ true
  pub named : contains b'=' a.0 ≡ false
  pub filled : is_empty a.1 ≡ false
  pub single : (mem a.0 observed && not (mem a.0 repeated_names)) ≡ false

-- Attributes that may follow one another.
abbrev pub Follows : List Text → List Text → List Attribute → Type 0
Follows allowed observed [] = Unit {0}
Follows allowed observed (a ∷ rest) =
    IsAllowed allowed observed a × Follows allowed (a.0 ∷ observed) rest

-- The names seen in the end.
abbrev pub seen : List Text → List Attribute → List Text
seen observed [] = observed
seen observed (a ∷ rest) = seen (a.0 ∷ observed) rest

split_once-found :
    (c : ℕ) (s : Text)
    → contains c s ≡ true
    → (s ≡ (split_once c s).0 ++ (c ∷ (split_once c s).1)) × (contains c (split_once c s).0 ≡ false)
unfolding split_once contains
split_once-found c [] h = absurd (ground arith)
split_once-found c (a ∷ s) h = elim (Bool-cases (a == c)) [
  | inl y ↦ rw y (ap (λ x. x ∷ s) (ground arith), refl)
  | inr n ↦ let (e, k) = split_once-found c s (rw n at h) in rw n (ap (λ x. a ∷ x) e, rw n k)
]

split_once-append :
    (c : ℕ) (p q : Text)
    → contains c p ≡ false
    → (split_once c (p ++ (c ∷ q)) ≡ (p, q)) × (contains c (p ++ (c ∷ q)) ≡ true)
unfolding split_once contains
split_once-append c [] q h = ground arith
split_once-append c (a ∷ p) q h = ground (arith, split_once-append c p q)

if_not-some :
    (b : Bool) (o : Option Text) {k : Text}
    → (if not b then none else o) ≡ some k
    → (b ≡ true) × (o ≡ some k)
if_not-some true o e = (refl, e)
if_not-some false o e = absurd (ground arith)

refused-some :
    (a b c : Bool) (s : Text) {k : Text}
    → (if not a || b || c then none else some s) ≡ some k
    → ((a ≡ true) × (b ≡ false) × (c ≡ false)) × (s ≡ k)
refused-some true false false s e = ((refl, refl, refl), ground arith)
refused-some false b c s e = absurd (ground arith)
refused-some true true c s e = absurd (ground arith)
refused-some true false true s e = absurd (ground arith)

line_key_sound :
    (allowed observed : List Text) (line key : Text)
    → line_key allowed observed line ≡ some key
    → (value : Text) × (line ≡ rendered (key, value)) × IsAllowed allowed observed (key, value)
unfolding line_key
line_key_sound allowed observed line key e =
    let (k, v) = split_once b'=' line in
    let (found, e₁) = if_not-some (contains b'=' line) _ e in
    let (good, same) = refused-some (mem k allowed) _ (is_empty v) k e₁ in
    let (whole, named) = split_once-found b'=' line found in
    (
      v,
      whole ∙ ap (λ x. x ++ (b'=' ∷ v)) same,
      subst (λ x. IsAllowed allowed observed (x, v)) same
          (record { known = good.0; named = named; filled = good.2; single = good.1 }),
    )

line_key_complete :
    (allowed observed : List Text) (a : Attribute)
    → IsAllowed allowed observed a
    → line_key allowed observed (rendered a) ≡ some a.0
unfolding line_key
line_key_complete allowed observed (k, v) h =
    let (cut, found) = split_once-append b'=' k v h.named in
    rw (found, cut, h.known, h.single, h.filled)

rendered-cons : (a : Attribute) → (c : ℕ) × (s : Text) × (rendered a ≡ c ∷ s)
rendered-cons ([], v) = (b'=', v, refl)
rendered-cons (c ∷ k, v) = (c, k ++ (b'=' ∷ v), refl)

any_filled-blank :
    (ls : List Text) → any (λ l. not (is_empty l)) ls ≡ false → all is_empty ls ≡ true
any_filled-blank [] h = refl
any_filled-blank (l ∷ ls) h = ground (arith, any_filled-blank ls)

blank-any_filled :
    (ls : List Text) → all is_empty ls ≡ true → any (λ l. not (is_empty l)) ls ≡ false
blank-any_filled [] h = refl
blank-any_filled (l ∷ ls) h = ground (arith, blank-any_filled ls)

if-some :
    (b : Bool) (o : List Text) {k : List Text}
    → (if b then none else some o) ≡ some k
    → (b ≡ false) × (o ≡ k)
if-some true o e = absurd (ground arith)
if-some false o e = (refl, ground arith)

bind-some :
    (o : Option Text) (f : Text → Option (List Text)) {k : List Text}
    → (elim o as (λ x. Option (List Text)) [ none ↦ none | some key ↦ f key ]) ≡ some k
    → (key : Text) × (o ≡ some key) × (f key ≡ some k)
bind-some none f e = absurd (ground arith)
bind-some (some key) f e = (key, refl, e)

-- The lines are attributes that may follow one another, and then empty lines.
pub record IsExchange (allowed observed lines out : List Text) : Type 0 where
  pub attributes : List Attribute
  pub blanks : List Text
  pub split_up : lines ≡ rendered_all attributes ++ blanks
  pub blank : all is_empty blanks ≡ true
  pub follows : Follows allowed observed attributes
  pub collected : out ≡ seen observed attributes

read_lines_sound :
    (allowed observed lines out : List Text)
    → read_lines allowed observed lines ≡ some out
    → IsExchange allowed observed lines out
unfolding read_lines
read_lines_sound allowed observed [] out e = record {
  attributes = [];
  blanks = [];
  split_up = refl;
  blank = refl;
  follows = tt;
  collected = ground arith;
}
read_lines_sound allowed observed ([] ∷ rest) out e =
    let (blank, same) = if-some (any (λ l. not (is_empty l)) rest) _ e in
    record {
      attributes = [];
      blanks = [] ∷ rest;
      split_up = refl;
      blank = any_filled-blank rest blank;
      follows = tt;
      collected = sym same;
    }
read_lines_sound allowed observed ((c ∷ line) ∷ rest) out e =
    let (key, found, e₁) = bind-some (line_key allowed observed (c ∷ line)) _ e in
    let (value, whole, is_allowed) = line_key_sound allowed observed (c ∷ line) key found in
    let r = read_lines_sound allowed (key ∷ observed) rest out e₁ in
    record {
      attributes = (key, value) ∷ r.attributes;
      blanks = r.blanks;
      split_up = cc (whole, r.split_up);
      blank = r.blank;
      follows = (is_allowed, r.follows);
      collected = r.collected;
    }

read_lines-blanks :
    (allowed observed blanks : List Text)
    → all is_empty blanks ≡ true
    → read_lines allowed observed blanks ≡ some observed
unfolding read_lines
read_lines-blanks allowed observed [] h = refl
read_lines-blanks allowed observed ([] ∷ rest) h = rw (blank-any_filled rest h)
read_lines-blanks allowed observed ((c ∷ s) ∷ rest) h = absurd (ground arith)

read_lines_complete :
    (allowed : List Text) (attributes : List Attribute) (observed blanks : List Text)
    → all is_empty blanks ≡ true
    → Follows allowed observed attributes
    → read_lines allowed observed (rendered_all attributes ++ blanks)
      ≡ some (seen observed attributes)
unfolding read_lines
read_lines_complete allowed [] observed blanks h f = read_lines-blanks allowed observed blanks h
read_lines_complete allowed (a ∷ rest) observed blanks h (first, f) =
    let (c, s, e) = rendered-cons a in
    let key : line_key allowed observed (c ∷ s) ≡ some a.0 =
      subst (λ l. line_key allowed observed l ≡ some a.0) e
        (line_key_complete allowed observed a first) in
    rw e (rw (key, read_lines) (read_lines_complete allowed rest (a.0 ∷ observed) blanks h f))

-- The lines of an exchange are read to the end exactly when they are attributes, each with an
-- allowed name that does not stand before (or may be repeated) and a value that is not empty,
-- followed by nothing but empty lines; the result is the names.
pub read_lines_iff :
    (allowed observed lines out : List Text)
    → (read_lines allowed observed lines ≡ some out) ↔ IsExchange allowed observed lines out
read_lines_iff allowed observed lines out = (
  read_lines_sound allowed observed lines out,
  λ x.
      subst (λ l. read_lines allowed observed l ≡ some out) (sym x.split_up)
        (read_lines_complete allowed x.attributes observed x.blanks x.blank x.follows
          ∙ ap some (sym x.collected)),
)
