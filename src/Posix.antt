-- ===== src/Posix.antt =====
-- `os.path` as runtime/templates/runtime_metadata.py calls it, on Linux and macOS.
pub mod Shrinks
use clamp.Prelude.{
  ◌≡◌, refl, Bool, ◌&&◌, ◌||◌, not, List, [], ◌∷◌, ◌++◌, ◌==◌, all, is_empty, if◌then◌else◌,
}
use clamp.Text.{Text, codes, text_eq, starts_with, ends_with, rstrip, split, join}

-- `os.path.isabs`
unfoldable pub is_absolute : Text → Bool
is_absolute path = starts_with path (codes "/")

-- `os.path.dirname`: what stands up to the last slash, without the slashes at its end unless it has
-- nothing else.
unfoldable pub dirname : Text → Text
dirname path =
    let head : Text = rstrip (λ c. not (c == b'/')) path in
    if all (λ c. c == b'/') head then head else rstrip (λ c. c == b'/') head

-- `os.path.join(a, b)` for a name `b` that does not start with a slash.
unfoldable pub join_name : Text → Text → Text
join_name a b = if is_empty a || ends_with a (codes "/") then a ++ b else a ++ (b'/' ∷ b)

abbrev drop_first : List Text → List Text
drop_first [] = []
drop_first (_ ∷ rest) = rest

-- One component of an absolute path, in front of those that `os.path.normpath` has kept, the last
-- first.
unfoldable pub keep_part : Text → List Text → List Text
keep_part part kept =
    if is_empty part || text_eq part (codes ".")
    then kept
    else if text_eq part (codes "..")
    then drop_first kept
    else part ∷ kept

unfoldable pub kept_parts : List Text → List Text → List Text
unfolding keep_part
kept_parts [] kept = kept
kept_parts (part ∷ parts) kept = kept_parts parts (keep_part part kept)

abbrev in_order : List Text → List Text → List Text
in_order [] done = done
in_order (part ∷ parts) done = in_order parts (part ∷ done)

-- The components of `os.path.abspath(path)`; `directory` is the working directory.
unfoldable pub absolute_parts : Text → Text → List Text
unfolding kept_parts join_name is_absolute
absolute_parts directory path =
    let whole : Text = if is_absolute path then path else join_name directory path in
    in_order (kept_parts (split b'/' whole) []) []

-- The slashes with which `os.path.normpath` starts: two if there are exactly two.
unfoldable pub root_of : Text → Text
root_of path =
    if starts_with path (codes "//") && not (starts_with path (codes "///"))
    then codes "//"
    else codes "/"

-- `os.path.abspath(path)`
unfoldable pub absolute : Text → Text → Text
unfolding absolute_parts root_of
absolute directory path = root_of path ++ join b'/' (absolute_parts directory path)

-- The components that two paths have in common at their beginning.
unfoldable pub common_parts : List Text → List Text → List Text
common_parts [] _ = []
common_parts _ [] = []
common_parts (a ∷ as') (b ∷ bs) =
    let rest = common_parts as' bs in if text_eq a b then a ∷ rest else []

-- Components that `os.path.commonpath` looks at.
unfoldable pub named_parts : List Text → List Text
named_parts [] = []
named_parts (part ∷ parts) =
    let rest = named_parts parts in
    if is_empty part || text_eq part (codes ".") then rest else part ∷ rest

-- `os.path.commonpath((a, b))` of two absolute paths.
unfoldable pub common_path : Text → Text → Text
unfolding common_parts named_parts
common_path a b =
    b'/' ∷ join b'/' (common_parts (named_parts (split b'/' a)) (named_parts (split b'/' b)))

-- One `..` for each component of the start that is left.
unfoldable pub climb_from : List Text → List Text → List Text
climb_from [] path = path
climb_from (_ ∷ start) path = codes ".." ∷ climb_from start path

-- What `os.path.relpath` makes of the components of the start and of the path.
unfoldable pub relative_from : List Text → List Text → List Text
unfolding climb_from
relative_from [] path = path
relative_from (a ∷ start) [] = climb_from (a ∷ start) []
relative_from (a ∷ start) (b ∷ path) =
    let rest = relative_from start path in
    if text_eq a b then rest else climb_from (a ∷ start) (b ∷ path)

-- `os.path.relpath(path, start).split("/")`, of components of absolute paths.
unfoldable pub relative_parts : List Text → List Text → List Text
unfolding relative_from
relative_parts start path = elim (relative_from start path) [
  | [] ↦ codes "." ∷ []
  | part ∷ parts ↦ part ∷ parts
]

posix_tests :
    (absolute (codes "/h") (codes "a/../b//c/.") ≡ codes "/h/b/c")
    × (common_path (codes "/h/u") (codes "/h/u/x") ≡ codes "/h/u")
    × (common_path (codes "/h/u") (codes "/h/ux") ≡ codes "/h")
    × (dirname (codes "/a//b/") ≡ codes "/a//b")
    × (join_name (codes "/") (codes "x") ≡ codes "/x")
unfolding absolute common_path dirname join_name starts_with ends_with split join text_eq rstrip
posix_tests = (refl, refl, refl, refl, refl)
