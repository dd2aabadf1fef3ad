-- ===== src/Regex/Runs.antt =====
-- The matcher decides the language of a pattern without anchors.
use clamp.Prelude.{
  ℕ, zero, suc, ◌≤◌, ◌<◌, ◌≡◌, refl, sym, ap, ◌∙◌, ◌↔◌, ◌⊎◌, inl, inr, Bool, true, false, ◌&&◌,
  ◌||◌, List, [], ◌∷◌, ◌++◌, ltb, length, if◌then◌else◌, any, is_empty, arith, Bool-cases,
  append_assoc, append-nil, length-append, lt→ltb, and-split, subst,
}
use clamp.Text.{Text}
use clamp.Regex.{
  Regex, one, seq, alt, star, times, start, stop, empty, run, from_each, rounds, repeat, run_one,
  fullmatch,
}

-- The texts that a pattern describes, with no account of preference.
mutual
  pub data Language : Regex → Text → Type 0 where
    one_char : {p : ℕ → Bool} {c : ℕ} {u : Text} → p c ≡ true → u ≡ c ∷ [] → Language (one p) u
    both :
        {a b : Regex} {u v w : Text}
        → Language a u
        → Language b v
        → w ≡ u ++ v
        → Language (seq a b) w
    left : {a b : Regex} {u : Text} → Language a u → Language (alt a b) u
    right : {a b : Regex} {u : Text} → Language b u → Language (alt a b) u
    none_more : {r : Regex} {u : Text} → u ≡ [] → Language (star r) u
    once_more :
        {r : Regex} {u v w : Text}
        → Language r u
        → Language (star r) v
        → w ≡ u ++ v
        → Language (star r) w
    counted : {r : Regex} {n : ℕ} {u : Text} → Times r n u → Language (times n r) u
    nothing : {u : Text} → u ≡ [] → Language empty u

  -- The texts of `n` matches in a row.
  pub data Times : Regex → ℕ → Text → Type 0 where
    no_times : {r : Regex} {u : Text} → u ≡ [] → Times r zero u
    more_times :
        {r : Regex} {n : ℕ} {u v w : Text}
        → Language r u
        → Times r n v
        → w ≡ u ++ v
        → Times r (suc n) w

-- A pattern with no anchor in it.
abbrev pub IsPlain : Regex → Type 0
IsPlain (one p) = Unit {0}
IsPlain (seq a b) = IsPlain a × IsPlain b
IsPlain (alt a b) = IsPlain a × IsPlain b
IsPlain (star r) = IsPlain r
IsPlain (times n r) = IsPlain r
IsPlain start = ⊥
IsPlain stop = ⊥
IsPlain empty = Unit {0}

any-append : (k : Text → Bool) (xs ys : List Text) → any k (xs ++ ys) ≡ (any k xs || any k ys)
any-append k [] ys = refl
any-append k (x ∷ xs) ys = ground (arith, any-append k xs ys)

any-from_each :
    (k : Text → Bool) (f : Text → List Text) (ss : List Text)
    → any k (from_each f ss) ≡ any (λ t. any k (f t)) ss
unfolding from_each
any-from_each k f [] = refl
any-from_each k f (s ∷ ss) =
    any-append k (f s) (from_each f ss) ∙ ap (λ b. any k (f s) || b) (any-from_each k f ss)

-- A front of `s` in the language, behind which `k` accepts the rest.
abbrev Front : (Text → Type 0) → (Text → Bool) → Text → Type 0
Front L k s = (u t : Text) × (s ≡ u ++ t) × L u × (k t ≡ true)

or-cases : (a b : Bool) → (a || b) ≡ true → (a ≡ true) ⊎ (b ≡ true)
or-cases true b h = inl refl
or-cases false b h = inr h

-- The step function of a pattern finds only fronts of its language.
abbrev Finds : (Text → List Text) → (Text → Type 0) → Type 0
Finds f L = (k : Text → Bool) (s : Text) → any k (f s) ≡ true → Front L k s

any_guarded :
    (k : Text → Bool) (g : Text → List Text) (n : ℕ) (t : Text)
    → any k (if ltb (length t) n then g t else []) ≡ (ltb (length t) n && any k (g t))
any_guarded k g n t = elim (Bool-cases (ltb (length t) n)) [ inl e ↦ rw e | inr e ↦ rw e ]

-- One round: the loop goes on where something was consumed, or stops here.
any-rounds :
    (k : Text → Bool) (f : Text → List Text) (fuel : ℕ) (s : Text)
    → any k (rounds f (suc fuel) s)
      ≡ (any (λ t. ltb (length t) (length s) && any k (rounds f fuel t)) (f s) || k s)
unfolding rounds
any-rounds k f fuel s =
    any-append k _ (s ∷ []) ∙ simp (any-from_each, any_guarded k (rounds f fuel)) (ground arith)

rounds_sound :
    (r : Regex) (f : Text → List Text) (fuel : ℕ)
    → Finds f (Language r)
    → Finds (rounds f fuel) (Language (star r))
rounds_sound r f zero h k s e = ([], s, refl, none_more refl, unfold rounds in ground arith)
rounds_sound r f (suc fuel) h k s e = elim (or-cases _ _ (sym (any-rounds k f fuel s) ∙ e)) [
  | inr last ↦ ([], s, refl, none_more refl, last)
  | inl more ↦
      let (u, t, e₁, l, m) = h (λ t. ltb (length t) (length s) && any k (rounds f fuel t)) s more in
      let (v, w, e₂, l', last) = rounds_sound r f fuel h k t (and-split _ _ m).1 in
      (u ++ v, w, e₁ ∙ ap (λ x. u ++ x) e₂ ∙ sym (append_assoc u v w), once_more l l' refl, last)
]

repeat_sound :
    (r : Regex) (f : Text → List Text) (n : ℕ)
    → Finds f (Language r)
    → Finds (repeat f n) (Times r n)
unfolding repeat
repeat_sound r f zero h k s e = ([], s, refl, no_times refl, ground arith)
repeat_sound r f (suc n) h k s e =
    let (u, t, e₁, l, m) = h (λ t. any k (repeat f n t)) s (sym (any-from_each k _ (f s)) ∙ e) in
    let (v, w, e₂, l', last) = repeat_sound r f n h k t m in
    (u ++ v, w, e₁ ∙ ap (λ x. u ++ x) e₂ ∙ sym (append_assoc u v w), more_times l l' refl, last)

run_one_sound : (p : ℕ → Bool) → Finds (run_one p) (Language (one p))
unfolding run_one
run_one_sound p k [] e = cc
run_one_sound p k (c ∷ s) e = elim (Bool-cases (p c)) [
  | inl y ↦ (c ∷ [], s, refl, one_char y refl, ground arith)
  | inr n ↦ absurd (ground arith)
]

pub run_sound : (total : ℕ) (r : Regex) → IsPlain r → Finds (run total r) (Language r)
unfolding run
run_sound total (one p) _ k s e = run_one_sound p k s e
run_sound total (seq a b) (pa, pb) k s e =
    let (u, t, e₁, l, m) =
      run_sound total a pa (λ t. any k (run total b t)) s
        (sym (any-from_each k _ (run total a s)) ∙ e) in
    let (v, w, e₂, l', last) = run_sound total b pb k t m in
    (u ++ v, w, e₁ ∙ ap (λ x. u ++ x) e₂ ∙ sym (append_assoc u v w), both l l' refl, last)
run_sound total (alt a b) (pa, pb) k s e =
    elim (or-cases _ _ (sym (any-append k _ (run total b s)) ∙ e)) [
      | inl h ↦ let (u, t, e₁, l, m) = run_sound total a pa k s h in (u, t, e₁, left l, m)
      | inr h ↦ let (u, t, e₁, l, m) = run_sound total b pb k s h in (u, t, e₁, right l, m)
    ]
run_sound total (star r) p k s e = rounds_sound r (run total r) _ (run_sound total r p) k s e
run_sound total (times n r) p k s e =
    let (u, t, e₁, l, m) = repeat_sound r (run total r) n (run_sound total r p) k s e in
    (u, t, e₁, counted l, m)
run_sound total start p k s e = absurd p
run_sound total stop p k s e = absurd p
run_sound total empty _ k s e = ([], s, refl, nothing refl, ground arith)

-- The step function of a pattern finds every front of its language.
abbrev Covers : (Text → List Text) → (Text → Type 0) → Type 0
Covers f L = (k : Text → Bool) (u t : Text) → L u → k t ≡ true → any k (f (u ++ t)) ≡ true

any_mono :
    (k k' : Text → Bool)
    → ((t : Text) → k t ≡ true → k' t ≡ true)
    → (xs : List Text) → any k xs ≡ true
    → any k' xs ≡ true
any_mono k k' h [] e = e
any_mono k k' h (x ∷ xs) e = ground (arith, h x, any_mono k k' h xs)

rounds_stop :
    (f : Text → List Text) (fuel : ℕ) (k : Text → Bool) (t : Text)
    → k t ≡ true
    → any k (rounds f fuel t) ≡ true
rounds_stop f zero k t m = unfold rounds in ground arith
rounds_stop f (suc fuel) k t m = any-rounds k f fuel t ∙ ground arith

rounds_complete :
    (r : Regex) (f : Text → List Text)
    → Covers f (Language r)
    → (fuel : ℕ) (k : Text → Bool) (t : Text) {w : Text} → Language (star r) w
    → length (w ++ t) ≤ fuel
    → k t ≡ true
    → any k (rounds f fuel (w ++ t)) ≡ true
rounds_complete r f h fuel k t (none_more e) n m = rw e (rounds_stop f fuel k t m)
rounds_complete r f h fuel k t (once_more {u = []} l l' e) n m =
    rw e (rounds_complete r f h fuel k t l' (rw e at n) m)
rounds_complete r f h zero k t (once_more {u = c ∷ u} l l' e) n m =
    absurd (omega (arith, ap (λ x. length (x ++ t)) e))
rounds_complete r f h (suc fuel) k t {w} (once_more {u = c ∷ u} {v = v} l l' e) n m =
    let whole : Text = (c ∷ u) ++ (v ++ t) in
    let same : w ++ t ≡ whole = rw e (append_assoc (c ∷ u) v t) in
    let size : length whole ≤ suc fuel = rw same at n in
    let shorter : length (v ++ t) < length whole = omega (arith, length-append u (v ++ t)) in
    let rest = rounds_complete r f h fuel k t l' (omega arith) m in
    let found =
      h (λ x. ltb (length x) (length whole) && any k (rounds f fuel x)) (c ∷ u) (v ++ t) l
        (rw (lt→ltb _ _ shorter) rest) in
    rw same (any-rounds k f fuel whole ∙ rw found)

repeat_complete :
    (r : Regex) (f : Text → List Text)
    → Covers f (Language r)
    → (k : Text → Bool) (t : Text) {n : ℕ} {w : Text} → Times r n w
    → k t ≡ true
    → any k (repeat f n (w ++ t)) ≡ true
unfolding repeat
repeat_complete r f h k t (no_times e) m = rw e (ground arith)
repeat_complete r f h k t (more_times {n = n} {u = u} {v = v} l l' e) m =
    rw (e, append_assoc u v t)
      (any-from_each k (repeat f n) (f (u ++ (v ++ t)))
        ∙ h (λ x. any k (repeat f n x)) u (v ++ t) l (repeat_complete r f h k t l' m))

run_complete : (total : ℕ) (r : Regex) → Covers (run total r) (Language r)
unfolding run
run_complete total (one p) k u t (one_char y e) m = rw (e, y) (unfold run_one in ground arith)
run_complete total (seq a b) k w t (both {u = u} {v = v} l l' e) m =
    rw (e, append_assoc u v t)
      (any-from_each k (run total b) (run total a (u ++ (v ++ t)))
        ∙ run_complete total a (λ x. any k (run total b x)) u (v ++ t) l
            (run_complete total b k v t l' m))
run_complete total (alt a b) k u t (left l) m =
    any-append k (run total a (u ++ t)) _ ∙ rw (run_complete total a k u t l m)
run_complete total (alt a b) k u t (right l) m =
    any-append k (run total a (u ++ t)) _ ∙ ground (arith, run_complete total b k u t l m)
run_complete total (star r) k u t l m =
    rounds_complete r (run total r) (run_complete total r) _ k t l (omega arith) m
run_complete total (times n r) k u t (counted l) m =
    repeat_complete r (run total r) (run_complete total r) k t l m
run_complete total empty k u t (nothing e) m = rw e (ground arith)
run_complete total start k u t l m = elim l [ ]
run_complete total stop k u t l m = elim l [ ]

is_empty-eq : (t : Text) → is_empty t ≡ true → t ≡ []
is_empty-eq [] h = refl
is_empty-eq (_ ∷ _) h = cc

-- `fullmatch` accepts exactly the texts of the pattern's language.
pub fullmatch_iff : (r : Regex) (s : Text) → IsPlain r → (fullmatch r s ≡ true) ↔ Language r s
unfolding fullmatch
fullmatch_iff r s p = (
  λ h.
      let (u, t, e, l, m) = run_sound (length s) r p is_empty s h in
      let whole : s ≡ u = e ∙ ap (λ x. u ++ x) (is_empty-eq t m) ∙ append-nil u in
      subst (Language r) (sym whole) l,
  λ l.
      subst (λ x. any is_empty (run (length s) r x) ≡ true) (append-nil s)
        (run_complete (length s) r is_empty s [] l refl),
)
