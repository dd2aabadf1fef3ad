-- ===== src/Utf8.antt =====
-- `bytes.decode("utf-8", "strict")` and `str.encode()`, which
-- runtime/templates/runtime_metadata.py uses on metadata, paths and command output.
use clamp.Prelude.{
  ℕ, zero, suc, ◌+◌, ◌-◌, ◌*◌, ◌/◌, ◌%◌, ◌≡◌, refl, Bool, true, false, ◌&&◌, Option, none, some, [],
  ◌∷◌, ◌++◌, leb, ltb, if◌then◌else◌, arith, all,
}
use clamp.Text.{Text}

-- Bytes are texts of values below 256.
abbrev pub Bytes : Type 0
Bytes = Text

abbrev prepend : ℕ → Option Text → Option Text
prepend c none = none
prepend c (some s) = some (c ∷ s)

unfoldable pub is_surrogate : ℕ → Bool
is_surrogate c = leb 0xD800 c && leb c 0xDFFF

-- A sequence that is complete stands for a scalar value in the range of its length.
is_proper : ℕ → ℕ → Bool
unfolding is_surrogate
is_proper least c = if is_surrogate c then false else leb least c && leb c 0x10FFFF

-- The decoder waits for `need` continuation bytes of a sequence that begins with the bits `acc`
-- and must not stand for less than `least`.
unfoldable pub decode_from : ℕ → ℕ → ℕ → Bytes → Option Text
unfolding is_proper
decode_from zero acc least [] = some []
decode_from (suc need) acc least [] = none
decode_from zero acc least (b ∷ s) =
    let single = prepend b (decode_from zero 0 0 s) in
    let two = decode_from 1 (b - 0xC0) 0x80 s in
    let three = decode_from 2 (b - 0xE0) 0x800 s in
    let four = decode_from 3 (b - 0xF0) 0x10000 s in
    if ltb b 0x80
    then single
    else if ltb b 0xC2
    then none
    else if ltb b 0xE0
    then two
    else if ltb b 0xF0
    then three
    else if ltb b 0xF5
    then four
    else none
decode_from (suc zero) acc least (b ∷ s) =
    let c : ℕ = acc * 64 + (b - 0x80) in
    let rest = prepend c (decode_from zero 0 0 s) in
    if leb 0x80 b && leb b 0xBF && is_proper least c then rest else none
decode_from (suc (suc need)) acc least (b ∷ s) =
    let rest = decode_from (suc need) (acc * 64 + (b - 0x80)) least s in
    if leb 0x80 b && leb b 0xBF then rest else none

unfoldable pub decode : Bytes → Option Text
unfolding decode_from
decode s = decode_from 0 0 0 s

encode_char : ℕ → Bytes
encode_char c =
    if ltb c 0x80
    then c ∷ []
    else if ltb c 0x800
    then (0xC0 + c / 64) ∷ (0x80 + c % 64) ∷ []
    else if ltb c 0x10000
    then (0xE0 + c / 4096) ∷ (0x80 + c / 64 % 64) ∷ (0x80 + c % 64) ∷ []
    else (0xF0 + c / 262144) ∷ (0x80 + c / 4096 % 64) ∷ (0x80 + c / 64 % 64) ∷ (0x80 + c % 64) ∷ []

-- `none` is a `UnicodeEncodeError`: a surrogate has no encoding.
unfoldable pub encode : Text → Option Bytes
unfolding is_surrogate encode_char
encode [] = some []
encode (c ∷ s) = elim (encode s) [
  | none ↦ none
  | some rest ↦ if is_surrogate c then none else some (encode_char c ++ rest)
]

utf8_tests :
    (encode (233 ∷ 8364 ∷ 128512 ∷ [])
      ≡ some (0xC3 ∷ 0xA9 ∷ 0xE2 ∷ 0x82 ∷ 0xAC ∷ 0xF0 ∷ 0x9F ∷ 0x98 ∷ 0x80 ∷ []))
    × (decode (0xC3 ∷ 0xA9 ∷ 0xE2 ∷ 0x82 ∷ 0xAC ∷ 0xF0 ∷ 0x9F ∷ 0x98 ∷ 0x80 ∷ [])
        ≡ some (233 ∷ 8364 ∷ 128512 ∷ []))
    × (decode (0xED ∷ 0xA0 ∷ 0x80 ∷ []) ≡ none)
    × (decode (0xE0 ∷ 0x80 ∷ 0x80 ∷ []) ≡ none)
unfolding decode encode
utf8_tests = (refl, refl, refl, refl)

abbrev pub is_ascii : ℕ → Bool
is_ascii c = ltb c 0x80

-- ASCII text and its bytes are the same numbers.
pub decode-ascii : (s : Bytes) → all is_ascii s ≡ true → decode s ≡ some s
unfolding decode
decode-ascii [] h = refl
decode-ascii (c ∷ s) h = ground (arith, decode-ascii s)

pub encode-ascii : (s : Text) → all is_ascii s ≡ true → encode s ≡ some s
unfolding encode
encode-ascii [] h = refl
encode-ascii (c ∷ s) h = ground (arith, encode-ascii s)
