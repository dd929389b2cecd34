-- ===== src/Node/Reload/Answers.antt =====
-- How the core and the certificate decide on the outcome of reloadNodeConfig (node/reload.go).
use yunzes_node.Base.{
  ℕ, ◌≡◌, ap, sym, subst, ◌∙◌, ◌↔◌, ◌⊎◌, refl, inl, inr, String, Bool, true, false, Option, none,
  some, List, [], ◌∷◌, ◌==◌, if◌then◌else◌, Map, lookup, string_eq, arith, eq_iff, Bool-cases,
}
use yunzes_node.Format.{runtime_key}
use yunzes_node.Panel.{UserInfo, NodeInfo}
use yunzes_node.Core.Interface.{VCore}
use yunzes_node.Limiter.State.{Limiter}
use yunzes_node.Limiter.Registry.{Registry}
use yunzes_node.Node.Ports.{listener_specs_for}
use yunzes_node.Node.Traffic
use yunzes_node.Node.Controller.{Controller, protocol_security, needs_cert}
use yunzes_node.Node.Reload.{
  aborted, rolled_back, reloaded, Reloaded, is_ok, valid, add_some_users, restore_server, rollback,
  commit, bring_up, reload_node_config,
}

-- The same node, users, keys and traffic as before; the limiter and the core's state may differ.
abbrev pub SameNode : {S B : Type 0} → Controller S B → Controller S B → Type 0
SameNode c d =
    (c.info ≡ d.info)
    × (c.user_list ≡ d.user_list)
    × (c.alive_map ≡ d.alive_map)
    × (c.runtime_key ≡ d.runtime_key)
    × (c.logical_tag ≡ d.logical_tag)
    × (c.traffic ≡ d.traffic)

reset-get : (t : Traffic.TrafficStore) (uuid : String) → Traffic.get (Traffic.reset t) uuid ≡ 0
unfolding Traffic.get Traffic.reset Traffic.count_in lookup
reset-get none uuid = refl
reset-get (some m) uuid = refl

module _ {S B : Type 0} (core : VCore S) (c : Controller S B) (r : Registry B) (built_tag : String)
    (n : NodeInfo) (users : List UserInfo) (alive : Option (Map ℕ ℕ)) (cert_ok : Bool) where
  -- A certificate that the node needs is there, and the listeners of the node are valid.
  abbrev pub IsAcceptable : Type 0
  IsAcceptable =
      (protocol_security n ≡ "tls" → c.has_cert_config ≡ true → cert_ok ≡ true)
      × (is_ok (listener_specs_for n c.listen_ip) ≡ true)

  abbrev wanted_tag : String
  wanted_tag = if c.name == "" then built_tag else c.logical_tag

  abbrev wanted_key : String
  wanted_key = if c.name == "" then runtime_key c.core_type built_tag else c.runtime_key

  -- What the core answers to the removal of the old node, and then to the new node, and then to its
  -- users, which it is not asked about if there are none.
  abbrev removed : S × Bool
  removed = core.del_node c.server c.runtime_key

  abbrev added : S × Bool
  added = core.add_node removed.0 wanted_key (some n)

  abbrev filled : S × Bool
  filled = elim users [
    | [] ↦ (added.0, true)
    | u ∷ us ↦ core.add_users added.0 wanted_key (some n) (u ∷ us)
  ]

  -- The core when the new node has failed, its answer to the old node, and then to the old users.
  abbrev left_at : S
  left_at = if added.1 then (core.del_node filled.0 wanted_key).0 else added.0

  abbrev taken_back : S × Bool
  taken_back = core.add_node left_at c.runtime_key c.info

  abbrev refilled : S
  refilled = elim c.user_list [
    | [] ↦ taken_back.0
    | u ∷ us ↦ (core.add_users taken_back.0 c.runtime_key c.info (u ∷ us)).0
  ]

  -- The controller runs the new node with the new users under the new keys, from no traffic.
  abbrev pub Runs : Controller S B → Type 0
  Runs d =
      (d.info ≡ some n)
      × (d.user_list ≡ users)
      × (d.alive_map ≡ alive)
      × (d.runtime_key ≡ wanted_key)
      × (d.logical_tag ≡ wanted_tag)
      × (d.server ≡ filled.0)
      × ((uuid : String) → Traffic.get d.traffic uuid ≡ 0)

  abbrev pub Ends : Reloaded S B → Type 0
  Ends (d, r', aborted) =
      SameNode d c
      × (d.limiter ≡ c.limiter)
      × (r' ≡ r)
      × ((IsAcceptable → ⊥) × (d.server ≡ c.server) ⊎ IsAcceptable × (removed.1 ≡ false))
  Ends (d, r', rolled_back) =
      SameNode d c
      × IsAcceptable
      × (removed.1 ≡ true)
      × ((added.1 ≡ false) ⊎ (filled.1 ≡ false))
      × (d.server ≡ (if taken_back.1 then refilled else taken_back.0))
  Ends (d, r', reloaded) =
      Runs d × IsAcceptable × (removed.1 ≡ true) × (added.1 ≡ true) × (filled.1 ≡ true)

  valid_iff : (valid core c n cert_ok ≡ true) ↔ IsAcceptable
  unfolding valid needs_cert
  valid_iff = ground (arith, eq_iff (protocol_security n) "tls")

  add_some_users-filled : add_some_users core added.0 wanted_key (some n) users ≡ filled
  unfolding add_some_users
  add_some_users-filled = by_users users
    where
      by_users :
          (us : List UserInfo)
          → add_some_users core added.0 wanted_key (some n) us ≡ elim us [
            | [] ↦ (added.0, true)
            | v ∷ vs ↦ core.add_users added.0 wanted_key (some n) (v ∷ vs)
          ]
      by_users [] = refl
      by_users (u ∷ us) = refl

  restore_server_lem :
      restore_server core c left_at ≡ (if taken_back.1 then refilled else taken_back.0)
  unfolding restore_server add_some_users
  restore_server_lem = ap (λ s. if taken_back.1 then s else taken_back.0) (by_users c.user_list)
    where
      by_users :
          (us : List UserInfo)
          → (add_some_users core taken_back.0 c.runtime_key c.info us).0 ≡ elim us [
            | [] ↦ taken_back.0
            | v ∷ vs ↦ (core.add_users taken_back.0 c.runtime_key c.info (v ∷ vs)).0
          ]
      by_users [] = refl
      by_users (u ∷ us) = refl

  rollback-Ends :
      (r' : Registry B) (s : S)
      → IsAcceptable
      → removed.1 ≡ true
      → (added.1 ≡ false) ⊎ (filled.1 ≡ false)
      → s ≡ left_at
      → Ends (rollback core c r' wanted_tag s)
  unfolding rollback
  rollback-Ends r' s a k f e = (
    (refl, refl, refl, refl, refl, refl),
    a,
    k,
    f,
    ap (restore_server core c) e ∙ restore_server_lem,
  )

  bring_up-Ends :
      (r' : Registry B) (l : Limiter B)
      → IsAcceptable
      → removed.1 ≡ true
      → Ends (bring_up core c r' wanted_tag wanted_key n users alive removed.0 l)
  unfolding bring_up commit
  bring_up-Ends r' l a k =
      let result = bring_up core c r' wanted_tag wanted_key n users alive removed.0 l in
      let pick_left = λ (b : Bool). if b then (core.del_node filled.0 wanted_key).0 else added.0 in
      elim (Bool-cases added.1) [
        | inr e ↦
            let same : result ≡ rollback core c r' wanted_tag added.0 = rw e refl in
            subst Ends (sym same) (rollback-Ends r' added.0 a k (inl e) (ap pick_left (sym e)))
        | inl e ↦ elim (Bool-cases filled.1) [
          | inr f ↦
              let s : S = (core.del_node filled.0 wanted_key).0 in
              let same : result ≡ rollback core c r' wanted_tag s =
                rw (e, add_some_users-filled, f) refl in
              subst Ends (sym same) (rollback-Ends r' s a k (inr f) (ap pick_left (sym e)))
          | inl f ↦
              rw (e, add_some_users-filled, f)
                ((refl, refl, refl, refl, refl, refl, λ uuid. reset-get c.traffic uuid), a, k, e, f)
        ]
      ]

  -- A reload is aborted exactly if a certificate that the new node needs cannot be had, or its
  -- listeners are invalid, or the core does not remove the old node; it is rolled back exactly if the
  -- core then refuses the new node or its users, and succeeds exactly if the core takes both. An
  -- aborted one leaves the node, the users, the keys, the traffic, the limiter and the global map as
  -- they were, one that is rolled back the first four; a successful one leaves the new node and its
  -- users under the new keys, no bytes of any user, and the core as its last answer left it. After a
  -- rollback the core has been given the old node again, and its users if it took the node.
  pub reload_node_config-Ends : Ends (reload_node_config core c r built_tag n users alive cert_ok)
  unfolding reload_node_config
  reload_node_config-Ends = elim (Bool-cases (valid core c n cert_ok)) [
    | inr e ↦
        let refused : IsAcceptable → ⊥ = λ a. absurd (ground (arith, e, valid_iff.1 a)) in
        rw e ((refl, refl, refl, refl, refl, refl), refl, refl, inl (refused, refl))
    | inl e ↦ elim (Bool-cases removed.1) [
      | inr f ↦ rw (e, f) ((refl, refl, refl, refl, refl, refl), refl, refl, inr (valid_iff.0 e, f))
      | inl f ↦ rw (e, f) (bring_up-Ends _ _ (valid_iff.0 e) f)
    ]
  ]
