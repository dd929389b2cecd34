-- ===== src/Node/Certs/Resolve/Env.antt =====
-- parseFlatDNSEnv of node/cert_resolve.go reads back what it is given.
use yunzes_node.Base.{
  ℕ, suc, ◌≤◌, ◌≡◌, ◌≢◌, refl, sym, ap, ◌∙◌, inl, inr, String, false, some, [], ◌∷◌, All, ◌==◌,
  nat_eq, string_eq, Map, insert, fill, ◌<>◌, cut, split, is_space, trim_left, trim_right,
  trim_space, arith, eq_iff, Bool-cases,
}
use Prim.Native.Char.{Char, code}
use Prim.Native.String.append
use yunzes_node.Node.Certs.Resolve.{env_entry, read_lines, parse_flat_dns_env}

-- The character stands nowhere in the text.
abbrev pub Without : ℕ → String → Type 0
Without sep String.[] = Unit
Without sep (String.◌∷◌ c s) = ((code c == sep) ≡ false) × Without sep s

abbrev pub IsTrimmed : String → Type 0
IsTrimmed s = (trim_left s ≡ s) × (trim_right s ≡ s)

-- A key that is not empty, and neither text has white space around it or a line break; the key has
-- no `=`.
pub record IsPlain (pair : String × String) : Type 0 where
  pub has_key : pair.0 ≢ ""
  pub trimmed : IsTrimmed pair.0 × IsTrimmed pair.1
  pub no_separator : Without 61 pair.0
  pub one_line : Without 10 pair.0 × Without 10 pair.1

-- One line of the text.
abbrev pub line_of : String × String → String
line_of (key, value) = key <> String.◌∷◌ "=" value

abbrev pub render : Map String String → String
render [] = String.[]
render (pair ∷ pairs) = line_of pair <> String.◌∷◌ "\n" (render pairs)

text_length : String → ℕ
text_length String.[] = 0
text_length (String.◌∷◌ c s) = suc (text_length s)

trim_left_shorter : (s : String) → text_length (trim_left s) ≤ text_length s
unfolding text_length trim_left
trim_left_shorter String.[] = omega arith
trim_left_shorter (String.◌∷◌ c s) = ground (arith, trim_left_shorter s)

Without-append : (sep : ℕ) (s t : String) → Without sep s → Without sep t → Without sep (s <> t)
Without-append sep String.[] t h k = rw (append.nil t) k
Without-append sep (String.◌∷◌ c s) t h k =
    rw (append.cons c s t) (h.0, Without-append sep s t h.1 k)

split-line :
    (sep : Char) (s t : String)
    → Without (code sep) s
    → split (code sep) (s <> String.◌∷◌ sep t) ≡ s ∷ split (code sep) t
unfolding split
split-line sep String.[] t h = rw (append.nil (String.◌∷◌ sep t)) (ground arith)
split-line sep (String.◌∷◌ c s) t h =
    rw (append.cons c s (String.◌∷◌ sep t)) (ground (arith, h.0, split-line sep s t h.1))

cut-first :
    (sep : Char) (s t : String)
    → Without (code sep) s
    → cut (code sep) (s <> String.◌∷◌ sep t) ≡ some (s, t)
unfolding cut
cut-first sep String.[] t h = rw (append.nil (String.◌∷◌ sep t)) (ground arith)
cut-first sep (String.◌∷◌ c s) t h =
    rw (append.cons c s (String.◌∷◌ sep t)) (ground (arith, h.0, cut-first sep s t h.1))

-- A text that is trimmed on the left starts with no white space.
not_blank :
    (c : Char) (s : String)
    → trim_left (String.◌∷◌ c s) ≡ String.◌∷◌ c s
    → is_space (code c) ≡ false
unfolding trim_left text_length
not_blank c s h = elim (Bool-cases (is_space (code c))) [
  | inr e ↦ e
  | inl e ↦
      let shorter = trim_left_shorter s in
      let same : trim_left s ≡ String.◌∷◌ c s = rw (e, trim_left) at h in
      let lengths = ap text_length same in absurd (omega (arith, shorter, lengths))
]

trim_left-append : (s t : String) → s ≢ "" → trim_left s ≡ s → trim_left (s <> t) ≡ s <> t
unfolding trim_left
trim_left-append String.[] t n h = absurd (n refl)
trim_left-append (String.◌∷◌ c s) t n h =
    rw (append.cons c s t) (let visible = not_blank c s h in rw (visible, trim_left) refl)

append-ne-empty : (s t : String) → t ≢ "" → s <> t ≢ ""
append-ne-empty String.[] t n h = n (sym (append.nil t) ∙ h)
append-ne-empty (String.◌∷◌ c s) t n h = let e = append.cons c s t in cc

trim_right-append : (s t : String) → t ≢ "" → trim_right t ≡ t → trim_right (s <> t) ≡ s <> t
unfolding trim_right
trim_right-append String.[] t n h = rw (append.nil t) h
trim_right-append (String.◌∷◌ c s) t n h =
    rw (append.cons c s t)
      (ground (arith, trim_right-append s t n h, append-ne-empty s t n, eq_iff (s <> t) ""))

trim_space-trimmed : (s : String) → IsTrimmed s → trim_space s ≡ s
unfolding trim_space
trim_space-trimmed s (l, r) = rw l r

trim_right-separated :
    (t : String) → trim_right t ≡ t → trim_right (String.◌∷◌ "=" t) ≡ String.◌∷◌ "=" t
unfolding trim_right
trim_right-separated t h = ground (arith, h)

module _ (pair : String × String) (plain : IsPlain pair) where
  line-IsTrimmed : IsTrimmed (line_of pair)
  line-IsTrimmed =
      let ((left, _), (_, right)) = plain.trimmed in
      let value = String.◌∷◌ "=" pair.1 in
      (
        trim_left-append pair.0 value plain.has_key left,
        trim_right-append pair.0 value (λ h. cc) (trim_right-separated pair.1 right),
      )

  line-Without : Without 10 (line_of pair)
  line-Without =
      Without-append 10 pair.0 (String.◌∷◌ "=" pair.1) plain.one_line.0 (refl, plain.one_line.1)

  env_entry-line : env_entry (line_of pair) ≡ some pair
  unfolding env_entry
  env_entry-line =
      let trimmed = trim_space-trimmed (line_of pair) line-IsTrimmed in
      let parts = cut-first "=" pair.0 pair.1 plain.no_separator in
      let key = trim_space-trimmed pair.0 plain.trimmed.0 in
      let value = trim_space-trimmed pair.1 plain.trimmed.1 in
      ground (arith, trimmed, parts, key, value, plain.has_key, eq_iff pair.0 "")

read_nothing : (m : Map String String) → read_lines m (split 10 "") ≡ m
unfolding read_lines split env_entry cut trim_space trim_right trim_left
read_nothing m = refl

read_lines-render :
    (m pairs : Map String String)
    → All IsPlain pairs
    → read_lines m (split 10 (render pairs)) ≡ fill m pairs
unfolding read_lines fill
read_lines-render m [] h = read_nothing m
read_lines-render m (pair ∷ pairs) h =
    rw (split-line "\n" (line_of pair) (render pairs) (line-Without pair h.0)) (
      ground (arith, env_entry-line pair h.0, read_lines-render (insert pair.0 pair.1 m) pairs h.1))

right_visible :
    (c : Char) (s : String) → is_space (code c) ≡ false → trim_right (String.◌∷◌ c s) ≢ ""
unfolding trim_right
right_visible c s h = elim (Bool-cases (trim_right s == "")) [
  | inl e ↦ rw (e, h) (λ f. cc)
  | inr e ↦ rw e (λ f. cc)
]

-- The text has something to read.
visible : (s : String) → s ≢ "" → trim_left s ≡ s → trim_space s ≢ ""
unfolding trim_space trim_right
visible String.[] n h = absurd (n refl)
visible (String.◌∷◌ c s) n h = rw h (right_visible c s (not_blank c s h))

-- The text of `KEY=VALUE` lines for a list of pairs reads back as the map with these pairs, a later
-- pair over an earlier one of the same key: if each key is not empty and has no `=`, and keys and
-- values have no line breaks and no white space around them. Values may contain `=`.
pub parse_flat_dns_env-render :
    (pairs : Map String String)
    → All IsPlain pairs
    → parse_flat_dns_env (render pairs) ≡ fill [] pairs
unfolding parse_flat_dns_env fill trim_space trim_right trim_left
parse_flat_dns_env-render [] h = refl
parse_flat_dns_env-render (pair ∷ pairs) h =
    let text = render (pair ∷ pairs) in
    let end = String.◌∷◌ "\n" (render pairs) in
    let n : text ≢ "" = append-ne-empty (line_of pair) end (λ e. cc) in
    let line : line_of pair ≢ "" = append-ne-empty pair.0 (String.◌∷◌ "=" pair.1) (λ e. cc) in
    let l = trim_left-append (line_of pair) end line (line-IsTrimmed pair h.0).0 in
    ground
      (arith, visible text n l, eq_iff (trim_space text) "", read_lines-render [] (pair ∷ pairs) h)
