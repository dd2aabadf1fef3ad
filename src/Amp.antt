-- ===== src/Amp.antt =====
-- `amp_version_result`, `verify_amp_version` and `pinned_amp_path` of
-- runtime/templates/runtime_metadata.py: the version that Amp prints, and the private name under
-- which it is run.
pub mod Version
pub mod Pinned
pub mod Private
mod Tests
use clamp.Prelude.{
  ℕ, ◌-◌, Bool, ◌&&◌, Option, none, some, List, [], ◌∷◌, ◌++◌, ltb, length, take, drop, is_empty,
  if◌then◌else◌,
}
use clamp.Text.{Text, codes, split_once, is_space}
use clamp.Text.Decimal.{digits_value}
use clamp.Regex.{Regex, one, seq, alt, start, stop, plus, literal, run, fullmatch}
use clamp.Patterns.{is_digit, is_hex}
use clamp.Posix.{dirname, join_name}
use clamp.Os.{
  Env, M, ◌>>=◌, ◌>>◌, return, require, finally, mkdir, rmdir, link, unlink, act, do_lstat,
  do_fstat, do_lexists, do_token,
}
use clamp.Files.{same_file}

-- `0\.0\.([0-9]+)-g[0-9a-f]+`
abbrev pub amp_pattern : Regex
amp_pattern =
    seq (literal (codes "0.0."))
      (seq (plus (one is_digit)) (seq (literal (codes "-g")) (plus (one is_hex))))

-- `(?:^|\s)` and `(?:\s|$)`
abbrev pub in_front : Regex
in_front = alt start (one is_space)

abbrev pub behind : Regex
behind = alt (one is_space) stop

-- The first match of the group for which the rest of the pattern matches too; `us` is what the
-- matches leave of `t`.
unfoldable pub first_version : ℕ → Text → List Text → Option Text
first_version total t [] = none
first_version total t (u ∷ us) =
    let later = first_version total t us in
    if is_empty (run total behind u) then later else some (take (length t - length u) t)

-- The group, behind one of the ways to match what stands in front of it.
unfoldable pub version_behind : ℕ → List Text → Option Text
unfolding first_version
version_behind total [] = none
version_behind total (t ∷ ts) = elim (first_version total t (run total amp_pattern t)) [
  | none ↦ version_behind total ts
  | some v ↦ some v
]

-- `re.search`, with `match.group(1)`.
unfoldable pub find_version : ℕ → Text → Option Text
unfolding version_behind
find_version total [] = version_behind total (run total in_front [])
find_version total (c ∷ s) = elim (version_behind total (run total in_front (c ∷ s))) [
  | none ↦ find_version total s
  | some v ↦ some v
]

-- `int(match.group(2))`: the digits in front of the `-`, at most 64 of them.
unfoldable pub amp_number : Text → ℕ
amp_number version = digits_value (split_once b'-' (drop 4 version)).0

abbrev pub least_amp : ℕ
least_amp = 1789113641

-- The status and the version that `amp_version_result` returns.
pub data Status : Type 0 where
  invalid : Status
  unsupported supported : Text → Status

-- The tests on the match, which is ASCII, so that its length is that of its encoding.
unfoldable pub version_status : Option Text → Status
version_status none = invalid
version_status (some version) =
    if ltb 64 (length version)
    then invalid
    else if ltb (amp_number version) least_amp
    then unsupported version
    else supported version

unfoldable pub amp_version_result : Text → Status
unfolding version_status find_version
amp_version_result observed = version_status (find_version (length observed) observed)

-- What `verify_amp_version` prints.
unfoldable pub version_lines : Status → List Text
version_lines invalid = codes "invalid" ∷ []
version_lines (unsupported version) = codes "unsupported" ∷ version ∷ []
version_lines (supported version) = codes "ok" ∷ version ∷ []

unfoldable pub verify_amp_version : Text → List Text
unfolding version_lines amp_version_result
verify_amp_version observed = version_lines (amp_version_result observed)

-- `re.fullmatch(r"0\.0\.[0-9]+-g[0-9a-f]+", version)`
unfoldable pub is_amp_version : Text → Bool
is_amp_version version = fullmatch amp_pattern version

module _ (env : Env) where
  -- The `finally` of `pinned_amp_path`.
  unfoldable pub unpin : Text → Text → M (Unit {0})
  unpin directory linked = do
    there ← do_lexists env linked
    if there then act env (unlink linked) else return tt
    act env (rmdir directory)

  -- The `try` of `pinned_amp_path`, with the body of the `with` at its `yield`.
  unfoldable pub run_pinned {ℓ} : {A : Type ℓ} → Text → ℕ → Text → (Text → M A) → M A
  run_pinned executable descriptor linked body = do
    act env (link executable linked)
    retained ← do_fstat env descriptor
    observed ← do_lstat env linked
    require (same_file retained observed && observed.is_regular) "Amp executable changed"
    body linked

  -- `with pinned_amp_path(executable, descriptor) as pinned: body`
  unfoldable pub with_pinned {ℓ} : {A : Type ℓ} → Text → ℕ → (Text → M A) → M A
  with_pinned executable descriptor body = do
    token ← do_token env
    let directory = join_name (dirname executable) (codes ".clamp-exec-" ++ token)
    let linked = join_name directory (codes "amp")
    act env (mkdir directory 0x1C0)
    finally (run_pinned executable descriptor linked body) (unpin directory linked)
