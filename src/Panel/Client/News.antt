-- ===== src/Panel/Client/News.antt =====
-- What GetNodeInfo of api/panel/node.go answers to replies that bring nothing new.
use yunzes_node.Base.{
  ◌≡◌, refl, ap, sym, ◌∙◌, ◌⊎◌, inl, inr, String, false, List, [], ◌∷◌, All, ◌==◌, nat_eq,
  string_eq, eq_iff, Bool-cases,
}
use yunzes_node.Panel.Client.{Client, Reply, Decoders, Answer, get_node_info}

module _ (hash : String → String) (d : Decoders) where
  -- The client after a sequence of replies, and the answers.
  abbrev pub poll : Client → List Reply → Client × List Answer
  poll c [] = (c, [])
  poll c (r ∷ rs) =
      let (c', a) = get_node_info hash d c r in
      let (c'', answers) = poll c' rs in (c'', a ∷ answers)

  abbrev pub IsOld : Reply → Reply → Type 0
  IsOld r q = (q.status ≡ 304) ⊎ (q.body ≡ r.body)

  -- After a reply that is not a 304, its hash is the one that is stored.
  stored :
      (c : Client) (r : Reply)
      → (r.status == 304) ≡ false
      → (get_node_info hash d c r).0.response_body_hash ≡ hash r.body
  unfolding get_node_info
  stored c r h = rw h (elim (Bool-cases (c.response_body_hash == hash r.body)) [
    | inl e ↦ rw e ((eq_iff _ _).0 e)
    | inr e ↦ rw e refl
  ])

  old_unchanged :
      (c : Client) (r q : Reply)
      → c.response_body_hash ≡ hash r.body
      → IsOld r q
      → get_node_info hash d c q ≡ (c, Answer.unchanged)
  unfolding get_node_info
  old_unchanged c r q e (inl k) = rw (k, get_node_info) refl
  old_unchanged c r q e (inr k) = elim (Bool-cases (q.status == 304)) [
    | inl s ↦ rw s refl
    | inr s ↦ rw (s, (eq_iff _ _).1 (e ∙ ap hash (sym k))) refl
  ]

  All-unchanged :
      (c : Client) (r : Reply) (rs : List Reply)
      → c.response_body_hash ≡ hash r.body
      → All (IsOld r) rs
      → ((poll c rs).0 ≡ c) × All (λ a. a ≡ Answer.unchanged) (poll c rs).1
  All-unchanged c r [] e o = (refl, tt)
  All-unchanged c r (q ∷ rs) e (o, os) =
      rw (old_unchanged c r q e o)
        (let (same, rest) = All-unchanged c r rs e os in (same, (refl, rest)))

  -- After a reply that is not a 304, whatever was answered to it, an error included, any number of
  -- replies that are a 304 or have the same body, with whatever status, are all answered as
  -- unchanged, and change nothing in the client.
  pub get_node_info_quiet :
      (c : Client) (r : Reply) (rs : List Reply)
      → (r.status == 304) ≡ false
      → All (IsOld r) rs
      → let c' = (get_node_info hash d c r).0 in
        ((poll c' rs).0 ≡ c') × All (λ a. a ≡ Answer.unchanged) (poll c' rs).1
  get_node_info_quiet c r rs h o = All-unchanged _ r rs (stored c r h) o
