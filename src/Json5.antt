-- ===== src/Json5.antt =====
-- common/json5: comments and trailing commas blanked in place, in a list of bytes. Each loop takes fuel,
-- and ends with `none` if it runs out. The reader that hands the bytes on is not modelled.
pub mod Blanked
use yunzes_node.Base.{
  ℕ, zero, suc, ◌+◌, ◌-◌, Bool, not, ◌||◌, Option, none, some, List, length, get_elem?, set, ◌==◌,
  nat_eq, if◌then◌else◌, ◌>>=◌,
}

abbrev pub Bytes : Type 0
Bytes = List ℕ

-- Characters by their codes.
abbrev pub space : ℕ
space = 32

abbrev pub is_nl : ℕ → Bool
is_nl c = c == 10 || c == 13

abbrev pub is_ws : ℕ → Bool
is_ws c = c == 32 || c == 9 || is_nl c

abbrev pub is_close : ℕ → Bool
is_close c = c == 125 || c == 93

-- `//` up to the end of the line.
unfoldable pub line_comment : ℕ → Bytes → ℕ → Option (Bytes × ℕ)
line_comment zero s i = none
line_comment (suc fuel) s i =
    let rest = line_comment fuel (set s i space) (i + 1) in
    elim (get_elem? s i) [ none ↦ some (s, i) | some c ↦ if is_nl c then some (s, i) else rest ]

-- The loop inside `/*`; after a star the next character is skipped, unless it is the slash.
unfoldable pub block_comment : ℕ → Bytes → ℕ → Option (Bytes × ℕ)
block_comment zero s i = none
block_comment (suc fuel) s i =
    let next = block_comment fuel (set s i space) (i + 1) in
    let skip = block_comment fuel (set s i space) (i + 2) in
    elim (get_elem? s i) [
      | none ↦ some (s, i)
      | some c ↦ if not (c == 42) then next else elim (get_elem? s (i + 1)) [
        | none ↦ skip
        | some d ↦ if d == 47 then some (set (set s i space) (i + 1) space, i + 1) else skip
      ]
    ]

unfoldable pub if_line_comment : Bytes → ℕ → Option (Bytes × ℕ)
if_line_comment s i = elim (get_elem? s i) [
  | none ↦ some (s, i)
  | some c ↦ if c == 47 then line_comment (length s + 1) (set s (i - 1) space) i else some (s, i)
]

unfoldable pub if_block_comment : Bytes → ℕ → Option (Bytes × ℕ)
if_block_comment s i = elim (get_elem? s i) [
  | none ↦ some (s, i)
  | some c ↦
      if c == 42
      then block_comment (length s + 1) (set (set s (i - 1) space) i space) i
      else some (s, i)
]

-- From the character behind a slash.
unfoldable pub consume_comment : Bytes → ℕ → Option (Bytes × ℕ)
consume_comment s i = do (s', i') ← if_line_comment s i; if_block_comment s' i'

-- From the character behind an opening quote.
unfoldable pub skip_string : ℕ → Bytes → ℕ → Option (Bytes × ℕ)
skip_string zero s i = none
skip_string (suc fuel) s i =
    let next = skip_string fuel s (i + 1) in
    let escaped = skip_string fuel s (i + 2) in
    elim (get_elem? s i) [
      | none ↦ some (s, i)
      | some c ↦ if c == 34 then some (s, i + 1) else if c == 92 then escaped else next
    ]

-- The loop behind the comma at `j`, which looks at `i + 1` next.
unfoldable pub after_comma : ℕ → Bytes → ℕ → ℕ → Option (Bytes × ℕ)
after_comma zero s j i = none
after_comma (suc fuel) s j i =
    let behind = consume_comment s (i + 2) >>= λ r. after_comma fuel r.0 j r.1 in
    let next = after_comma fuel s j (i + 1) in
    elim (get_elem? s (i + 1)) [
      | none ↦ some (s, i + 1)
      | some c ↦
          if is_close c
          then some (set s j space, i + 1)
          else if c == 47
          then behind
          else if not (is_ws c)
          then some (s, i + 1)
          else next
    ]

-- One round of the main loop, on the character `c` at `i`.
unfoldable pub round : Bytes → ℕ → ℕ → Option (Bytes × ℕ)
round s i c =
    if c == 34
    then skip_string (length s + 1) s (i + 1)
    else if c == 47
    then consume_comment s (i + 1)
    else if c == 44
    then after_comma (length s + 1) s i i
    else some (s, i + 1)

unfoldable pub prep_from : ℕ → Bytes → ℕ → Option Bytes
prep_from zero s i = none
prep_from (suc fuel) s i = elim (get_elem? s i) [
  | none ↦ some s
  | some c ↦ round s i c >>= λ r. prep_from fuel r.0 r.1
]

unfoldable pub prep : Bytes → Option Bytes
prep s = prep_from (length s + 1) s 0
