-- ===== src/Core/Slices/Reverse.antt =====
-- The reverse map of AddUserTrafficSlice (core/xray/user.go, core/sing/user.go).
use yunzes_node.Base.{
  ℕ, ◌≡◌, refl, ◌≢◌, inl, inr, String, some, [], ◌∷◌, ◌==◌, Map, Values, lookup, insert, string_eq,
  nat_eq, All, All-mono, arith, eq_iff, lookup-insert_self, lookup-insert, ◌∙◌, Bool-cases,
}
use yunzes_node.Counter.{TrafficCounter}
use yunzes_node.Core.Slices.{uid_of, reverse_map}
use yunzes_node.Core.Slices.Credit.{Covered}

-- No uid belongs to two users.
abbrev pub OneUser : Map String ℕ → Type 0
OneUser [] = Unit
OneUser ((user, uid) ∷ m) = Values (λ i. i ≢ uid) m × OneUser m

abbrev pub HasUid : Map String ℕ → String → Type 0
HasUid uids user = (uid : ℕ) × (lookup user uids ≡ some uid)

reverse_map-other :
    (uid : ℕ) (acc : Map ℕ String) (m : Map String ℕ)
    → Values (λ i. i ≢ uid) m
    → lookup uid (reverse_map acc m) ≡ lookup uid acc
unfolding reverse_map
reverse_map-other uid acc [] h = refl
reverse_map-other uid acc ((u, i) ∷ m) h =
    reverse_map-other uid (insert i u acc) m h.1 ∙ ground (arith, lookup-insert i uid u acc, h.0)

-- With one user for each uid, the reverse map leads from a user's uid to the user.
pub lookup-reverse_map :
    (uids : Map String ℕ) (acc : Map ℕ String) (user : String) (uid : ℕ)
    → OneUser uids
    → lookup user uids ≡ some uid
    → lookup uid (reverse_map acc uids) ≡ some user
unfolding reverse_map lookup
lookup-reverse_map [] acc user uid o h = absurd (ground arith)
lookup-reverse_map ((u, i) ∷ m) acc user uid o h = elim (Bool-cases (u == user)) [
  | inl hit ↦
      let same : i ≡ uid = ground arith in
      let there : lookup i (reverse_map (insert i u acc) m) ≡ some u =
        reverse_map-other i (insert i u acc) m o.0 ∙ lookup-insert_self i u acc in
      ground (arith, there, eq_iff u user)
  | inr miss ↦ lookup-reverse_map m (insert i u acc) user uid o.1 (ground arith)
]

-- So every counter of users who have a uid is covered.
pub OneUser-Covered :
    (uids : Map String ℕ) (m : TrafficCounter)
    → OneUser uids
    → All (λ e. HasUid uids e.0) m
    → Covered uids m
unfolding uid_of
OneUser-Covered uids m o h =
    All-mono (λ e. HasUid uids e.0) _ m
      (λ e (uid, k). ground (arith, k, lookup-reverse_map uids [] e.0 uid o k)) h
