-- ===== src/Json5/Blanked.antt =====
-- The trimming of common/json5 ends, and only ever writes blanks.
use yunzes_node.Base.{
  ℕ, zero, suc, ◌+◌, ◌-◌, ◌≤◌, ◌<◌, ◌≡◌, ◌⊎◌, refl, inl, inr, not, Option, none, some, [], ◌∷◌,
  length, get_elem?, set, length-set, get_elem?-some, ◌==◌, nat_eq, Returns, Returns-bind,
  Returns-mono, Returns-if, arith, ◌>>=◌,
}
use yunzes_node.Json5.{
  Bytes, space, is_nl, is_ws, is_close, line_comment, block_comment, if_line_comment,
  if_block_comment, consume_comment, skip_string, after_comma, round, prep_from, prep,
}

-- The same bytes but for blanks, at the same places.
abbrev pub Blanks : Bytes → Bytes → Type 0
Blanks [] [] = Unit
Blanks [] (t ∷ ts) = ⊥
Blanks (s ∷ ss) [] = ⊥
Blanks (s ∷ ss) (t ∷ ts) = ((t ≡ s) ⊎ (t ≡ space)) × Blanks ss ts

Blanks-refl : (s : Bytes) → Blanks s s
Blanks-refl [] = tt
Blanks-refl (c ∷ s) = (inl refl, Blanks-refl s)

Blanks-trans : (s t u : Bytes) → Blanks s t → Blanks t u → Blanks s u
Blanks-trans [] [] u h k = k
Blanks-trans [] (d ∷ t) u h k = absurd h
Blanks-trans (c ∷ s) [] u h k = absurd h
Blanks-trans (c ∷ s) (d ∷ t) [] h k = absurd k
Blanks-trans (c ∷ s) (d ∷ t) (e ∷ u) h k = (ground (arith, h.0, k.0), Blanks-trans s t u h.1 k.1)

Blanks-set : (s : Bytes) (i : ℕ) → Blanks s (set s i space)
Blanks-set [] i = tt
Blanks-set (c ∷ s) zero = (inr refl, Blanks-refl s)
Blanks-set (c ∷ s) (suc i) = (inl refl, Blanks-set s i)

pub Blanks-length : (s t : Bytes) → Blanks s t → length t ≡ length s
Blanks-length [] [] h = refl
Blanks-length [] (d ∷ t) h = absurd h
Blanks-length (c ∷ s) [] h = absurd h
Blanks-length (c ∷ s) (d ∷ t) h = omega (arith, Blanks-length s t h.1)

-- A part of the program, entered with `s` at the place `low`, leaves blanks and does not go back.
abbrev Moves : Bytes → ℕ → Bytes × ℕ → Type 0
Moves s low r = Blanks s r.0 × (low ≤ r.1)

Moves-trans :
    (s : Bytes) (low : ℕ) (t : Bytes) (mid : ℕ) (r : Bytes × ℕ)
    → Blanks s t
    → low ≤ mid
    → Moves t mid r
    → Moves s low r
Moves-trans s low t mid r b l (b', l') = (Blanks-trans s t r.0 b b', omega arith)

-- A later start moves as well.
Returns-Moves :
    (s : Bytes) (low : ℕ) (t : Bytes) (mid : ℕ) (m : Option (Bytes × ℕ))
    → Blanks s t
    → low ≤ mid
    → Returns (Moves t mid) m
    → Returns (Moves s low) m
Returns-Moves s low t mid none b l h = h
Returns-Moves s low t mid (some r) b l h = Moves-trans s low t mid r b l h

Returns-elim :
    {A : Type 0} (P : A → Type 0) (o : Option ℕ) (x : Option A) (f : ℕ → Option A)
    → (o ≡ none → Returns P x)
    → ((c : ℕ) → o ≡ some c → Returns P (f c))
    → Returns P (elim o [ none ↦ x | some c ↦ f c ])
Returns-elim P none x f h k = h refl
Returns-elim P (some c) x f h k = k c refl

Returns-Blanks :
    (s t : Bytes) (m : Option Bytes) → Blanks s t → Returns (Blanks t) m → Returns (Blanks s) m
Returns-Blanks s t none b h = h
Returns-Blanks s t (some u) b h = Blanks-trans s t u b h

line_comment-Moves :
    (fuel : ℕ) (s : Bytes) (i : ℕ)
    → length s < i + fuel
    → 1 ≤ fuel
    → Returns (Moves s i) (line_comment fuel s i)
unfolding line_comment
line_comment-Moves zero s i f g = absurd (omega arith)
line_comment-Moves (suc fuel) s i f g =
    Returns-elim (Moves s i) (get_elem? s i) _ _ (λ _. (Blanks-refl s, omega arith))
      λ c e.
        let inside = get_elem?-some s i e in
        Returns-if (Moves s i) (is_nl c) _ _ (λ _. (Blanks-refl s, omega arith))
          (λ _. Returns-Moves s i (set s i space) (i + 1) _ (Blanks-set s i) (omega arith) (
            line_comment-Moves fuel (set s i space) (i + 1) (omega (arith, length-set s i space))
              (omega arith)))

block_comment-Moves :
    (fuel : ℕ) (s : Bytes) (i : ℕ)
    → length s < i + fuel
    → 1 ≤ fuel
    → Returns (Moves s i) (block_comment fuel s i)
unfolding block_comment
block_comment-Moves zero s i f g = absurd (omega arith)
block_comment-Moves (suc fuel) s i f g =
    let s' = set s i space in
    let blank = Blanks-set s i in
    let size = length-set s i space in
    Returns-elim (Moves s i) (get_elem? s i) _ _ (λ _. (Blanks-refl s, omega arith))
      λ c e.
        let inside = get_elem?-some s i e in
        let skip =
          Returns-Moves s i s' (i + 2) _ blank (omega arith)
            (block_comment-Moves fuel s' (i + 2) (omega (arith, size)) (omega arith)) in
        Returns-if (Moves s i) (not (c == 42)) _ _
          (λ _.
            Returns-Moves s i s' (i + 1) _ blank (omega arith)
              (block_comment-Moves fuel s' (i + 1) (omega (arith, size)) (omega arith)))
          (λ _.
            Returns-elim (Moves s i) (get_elem? s (i + 1)) _ _ (λ _. skip)
              λ d e'.
                Returns-if (Moves s i) (d == 47) _ _
                  (λ _. (
                    Blanks-trans s s' (set s' (i + 1) space) blank (Blanks-set s' (i + 1)),
                    omega arith,
                  ))
                  (λ _. skip))

if_line_comment-Moves : (s : Bytes) (i : ℕ) → Returns (Moves s i) (if_line_comment s i)
unfolding if_line_comment
if_line_comment-Moves s i =
    let s' = set s (i - 1) space in
    Returns-elim (Moves s i) (get_elem? s i) _ _ (λ _. (Blanks-refl s, omega arith))
      λ c e.
        Returns-if (Moves s i) (c == 47) _ _
          (λ _. Returns-Moves s i s' i _ (Blanks-set s (i - 1)) (omega arith) (
            line_comment-Moves (length s + 1) s' i (omega (arith, length-set s (i - 1) space))
              (omega arith)))
          (λ _. (Blanks-refl s, omega arith))

if_block_comment-Moves : (s : Bytes) (i : ℕ) → Returns (Moves s i) (if_block_comment s i)
unfolding if_block_comment
if_block_comment-Moves s i =
    let s' = set s (i - 1) space in
    let t = set s' i space in
    Returns-elim (Moves s i) (get_elem? s i) _ _ (λ _. (Blanks-refl s, omega arith))
      λ c e.
        Returns-if (Moves s i) (c == 42) _ _
          (λ _.
            Returns-Moves s i t i _ (Blanks-trans s s' t (Blanks-set s (i - 1)) (Blanks-set s' i))
              (omega arith)
              (block_comment-Moves (length s + 1) t i
                (omega (arith, length-set s (i - 1) space, length-set s' i space)) (omega arith)))
          (λ _. (Blanks-refl s, omega arith))

-- A step and then another one.
Moves-bind :
    (s : Bytes) (low : ℕ) (m : Option (Bytes × ℕ)) (f : Bytes × ℕ → Option (Bytes × ℕ))
    → Returns (Moves s low) m
    → ((r : Bytes × ℕ) → Moves s low r → Returns (Moves r.0 r.1) (f r))
    → Returns (Moves s low) (m >>= f)
Moves-bind s low m f h k =
    Returns-bind (Moves s low) (Moves s low) m f h
      λ r moved. Returns-Moves s low r.0 r.1 (f r) moved.0 moved.1 (k r moved)

consume_comment-Moves : (s : Bytes) (i : ℕ) → Returns (Moves s i) (consume_comment s i)
unfolding consume_comment
consume_comment-Moves s i =
    Moves-bind s i (if_line_comment s i) _ (if_line_comment-Moves s i)
      λ r moved. if_block_comment-Moves r.0 r.1

skip_string-Moves :
    (fuel : ℕ) (s : Bytes) (i : ℕ)
    → length s < i + fuel
    → 1 ≤ fuel
    → Returns (Moves s i) (skip_string fuel s i)
unfolding skip_string
skip_string-Moves zero s i f g = absurd (omega arith)
skip_string-Moves (suc fuel) s i f g =
    Returns-elim (Moves s i) (get_elem? s i) _ _ (λ _. (Blanks-refl s, omega arith))
      λ c e.
        let inside = get_elem?-some s i e in
        let on = λ (k : ℕ) (k_pos : 1 ≤ k).
          Returns-Moves s i s (i + k) _ (Blanks-refl s) (omega arith)
            (skip_string-Moves fuel s (i + k) (omega arith) (omega arith)) in
        Returns-if (Moves s i) (c == 34) _ _ (λ _. (Blanks-refl s, omega arith))
          (λ _.
            Returns-if (Moves s i) (c == 92) _ _ (λ _. on 2 (omega arith))
              (λ _. on 1 (omega arith)))

after_comma-Moves :
    (fuel : ℕ) (s : Bytes) (j i : ℕ)
    → length s < i + fuel
    → 1 ≤ fuel
    → Returns (Moves s (i + 1)) (after_comma fuel s j i)
unfolding after_comma
after_comma-Moves zero s j i f g = absurd (omega arith)
after_comma-Moves (suc fuel) s j i f g =
    let low = i + 1 in
    Returns-elim (Moves s low) (get_elem? s (i + 1)) _ _ (λ _. (Blanks-refl s, omega arith))
      λ c e.
        let inside = get_elem?-some s (i + 1) e in
        Returns-if (Moves s low) (is_close c) _ _ (λ _. (Blanks-set s j, omega arith))
          (λ _.
            Returns-if (Moves s low) (c == 47) _ _
              (λ _.
                Returns-bind (Moves s (i + 2)) (Moves s low) (consume_comment s (i + 2)) _
                  (consume_comment-Moves s (i + 2))
                  λ r moved. Returns-Moves s low r.0 (r.1 + 1) _ moved.0 (omega (arith, moved.1)) (
                    after_comma-Moves fuel r.0 j r.1
                      (omega (arith, moved.1, Blanks-length s r.0 moved.0)) (omega arith)))
              (λ _.
                Returns-if (Moves s low) (not (is_ws c)) _ _ (λ _. (Blanks-refl s, omega arith))
                  (λ _.
                    Returns-Moves s low s (i + 1 + 1) _ (Blanks-refl s) (omega arith)
                      (after_comma-Moves fuel s j (i + 1) (omega arith) (omega arith)))))

round-Moves :
    (s : Bytes) (i c : ℕ) → get_elem? s i ≡ some c → Returns (Moves s (i + 1)) (round s i c)
unfolding round
round-Moves s i c e =
    let inside = get_elem?-some s i e in
    let low = i + 1 in
    Returns-if (Moves s low) (c == 34) _ _
      (λ _. skip_string-Moves (length s + 1) s (i + 1) (omega arith) (omega arith))
      (λ _.
        Returns-if (Moves s low) (c == 47) _ _ (λ _. consume_comment-Moves s (i + 1))
          (λ _.
            Returns-if (Moves s low) (c == 44) _ _
              (λ _. after_comma-Moves (length s + 1) s i i (omega arith) (omega arith))
              (λ _. (Blanks-refl s, omega arith))))

prep_from-Blanks :
    (fuel : ℕ) (s : Bytes) (i : ℕ)
    → length s < i + fuel
    → 1 ≤ fuel
    → Returns (Blanks s) (prep_from fuel s i)
unfolding prep_from
prep_from-Blanks zero s i f g = absurd (omega arith)
prep_from-Blanks (suc fuel) s i f g =
    Returns-elim (Blanks s) (get_elem? s i) _ _ (λ _. Blanks-refl s)
      λ c e.
        let inside = get_elem?-some s i e in
        Returns-bind (Moves s (i + 1)) (Blanks s) (round s i c) _ (round-Moves s i c e) λ r moved.
          Returns-Blanks s r.0 _ moved.0 (
            prep_from-Blanks fuel r.0 r.1 (omega (arith, moved.1, Blanks-length s r.0 moved.0))
              (omega arith))

-- On any bytes the trimming ends, and the result has the same length, and at each place the byte
-- that was there or a blank.
pub prep-Blanks : (s : Bytes) → Returns (λ t. Blanks s t × (length t ≡ length s)) (prep s)
unfolding prep
prep-Blanks s =
    Returns-mono (Blanks s) _ (prep s) (λ t b. (b, Blanks-length s t b))
      (prep_from-Blanks (length s + 1) s 0 (omega arith) (omega arith))
