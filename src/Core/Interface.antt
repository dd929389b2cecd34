-- ===== src/Core/Interface.antt =====
-- The interface Core of core/interface.go, as the node controllers use it: operations on a state
-- `S` of the core. An operation that can fail returns the state it leaves and `true` for success.
use yunzes_node.Base.{
  ℕ, ◌+◌, ◌≡◌, String, Bool, true, Option, List, [], ◌∷◌, All, ◌==◌, nat_eq, if◌then◌else◌,
}
use yunzes_node.Panel.{UserInfo, UserTraffic, NodeInfo}

pub record VCore (S : Type 0) : Type 0 where
  pub add_node : S → String → Option NodeInfo → S × Bool
  pub del_node : S → String → S × Bool
  pub add_users : S → String → Option NodeInfo → List UserInfo → S × Bool
  pub del_users : S → String → List UserInfo → S × Bool
  pub get_user_traffic_slice : S → String → Bool → S × List UserTraffic
  pub add_user_traffic_slice : S → String → List UserTraffic → S × Bool

abbrev pub bytes : UserTraffic → ℕ
bytes t = t.upload + t.download

-- The bytes of one user in a slice.
abbrev pub total : ℕ → List UserTraffic → ℕ
total uid [] = 0
total uid (t ∷ ts) = (if t.uid == uid then bytes t else 0) + total uid ts

-- What a core owes the controllers about the traffic under one tag: `held` counts the bytes that it
-- holds for a user, a read with reset moves them to the slice, and adding a slice brings them back.
pub record Conserves {S : Type 0} (core : VCore S) (tag : String) : Type 1 where
  pub held : S → ℕ → ℕ
  pub IsReady : S → Type 0
  pub Creditable : S → UserTraffic → Type 0
  pub drains :
      (s : S)
      → IsReady s
      → let (s', ts) = core.get_user_traffic_slice s tag true in
        IsReady s' × All (Creditable s') ts × ((uid : ℕ) → held s' uid + total uid ts ≡ held s uid)
  pub credits :
      (s : S) (ts : List UserTraffic)
      → IsReady s
      → All (Creditable s) ts
      → (uid : ℕ) → held (core.add_user_traffic_slice s tag ts).0 uid ≡ held s uid + total uid ts
