-- ===== src/Node/Reload/Outcomes.antt =====
-- The limiter that reloadNodeConfig (node/reload.go) leaves to the controller and to the global map.
use yunzes_node.Base.{
  ℕ, ◌≡◌, refl, sym, ap, ◌∙◌, eq_iff, inl, inr, String, Bool, not, Option, some, List, ◌==◌,
  if◌then◌else◌, Map, lookup, string_eq, lookup-insert_self, Bool-cases,
}
use yunzes_node.Format.{runtime_key}
use yunzes_node.Panel.{UserInfo, NodeInfo}
use yunzes_node.Core.Interface.{VCore}
use yunzes_node.Limiter.State.{Limiter}
use yunzes_node.Limiter.Registry.{Registry, add_limiter, lookup-change_limiter}
use yunzes_node.Node.Controller.{Controller}
use yunzes_node.Node.Reload.{
  aborted, Reloaded, replace_alive, valid, swap_limiter, restore_limiter, add_some_users, rollback,
  commit, bring_up, reload_node_config,
}

-- The controller's key is that of its core and tag, and the limiter found under it in the global map
-- is the controller's.
abbrev pub Coherent : {S B : Type 0} → Controller S B → Registry B → Type 0
Coherent c r =
    (c.runtime_key ≡ runtime_key c.core_type c.logical_tag)
    × (lookup c.runtime_key r ≡ some c.limiter)

module _ {S B : Type 0} (core : VCore S) where
  -- The rule by which `bring_up` ends, for any property of its results.
  pub bring_up-elim :
      (P : Reloaded S B → Type 0) (c : Controller S B) (r : Registry B) (tag rk : String)
      (n : NodeInfo) (users : List UserInfo) (alive : Option (Map ℕ ℕ)) (s : S) (l : Limiter B)
      → ((s' : S) → P (rollback core c r tag s'))
      → ((s' : S) → P (commit core c r tag rk n users alive s' l))
      → P (bring_up core c r tag rk n users alive s l)
  unfolding bring_up
  bring_up-elim P c r tag rk n users alive s l back done =
      let up = core.add_node s rk (some n) in
      let fill = add_some_users core up.0 rk (some n) users in
      elim (Bool-cases (not up.1)) [
        | inl e ↦ rw e (back up.0)
        | inr e ↦ rw e (elim (Bool-cases (not fill.1)) [
          | inl f ↦ rw f (back (core.del_node fill.0 rk).0)
          | inr f ↦ rw f (done fill.0)
        ])
      ]

  add_limiter-lookup :
      (r : Registry B) (c : Controller S B) (us : List UserInfo) (alive : Map ℕ ℕ)
      → let rk = runtime_key c.core_type c.logical_tag in
        let (r', l) = add_limiter r c.core_type c.logical_tag c.limit_config us alive in
        lookup rk r' ≡ some l
  unfolding add_limiter
  add_limiter-lookup r c us alive = lookup-insert_self (runtime_key c.core_type c.logical_tag) _ r

  rollback-Coherent :
      (c : Controller S B) (r : Registry B) (tag : String) (users : List UserInfo)
      (alive : Option (Map ℕ ℕ)) (s : S)
      → Coherent c r
      → let (d, r', o) = rollback core c (swap_limiter core c r tag users alive).0 tag s in
        Coherent d r'
  unfolding rollback restore_limiter swap_limiter
  rollback-Coherent c r tag users alive s (k, h) = elim (Bool-cases (tag == c.logical_tag)) [
    | inl e ↦ rw e (k, h)
    | inr e ↦ rw e (k, rw k (add_limiter-lookup _ c c.user_list _))
  ]

  commit-Coherent :
      (c : Controller S B) (r : Registry B) (tag rk : String) (n : NodeInfo) (users : List UserInfo)
      (alive : Option (Map ℕ ℕ)) (s : S) (l : Limiter B)
      → rk ≡ runtime_key c.core_type tag
      → lookup rk r ≡ some l
      → let (d, r', o) = commit core c r tag rk n users alive s l in Coherent d r'
  unfolding commit
  commit-Coherent c r tag rk n users alive s l k h =
      (k, lookup-change_limiter (λ x. replace_alive x alive) rk r l h)

  -- The limiter of the new tag stands under the new key.
  swap_limiter-lookup :
      (c : Controller S B) (r : Registry B) (tag rk : String) (users : List UserInfo)
      (alive : Option (Map ℕ ℕ))
      → Coherent c r
      → rk ≡ runtime_key c.core_type tag
      → let (r', l) = swap_limiter core c r tag users alive in lookup rk r' ≡ some l
  unfolding swap_limiter add_limiter
  swap_limiter-lookup c r tag rk users alive (k, h) e = elim (Bool-cases (tag == c.logical_tag)) [
    | inl same ↦
        let old_key : rk ≡ c.runtime_key =
          e ∙ ap (runtime_key c.core_type) ((eq_iff tag c.logical_tag).0 same) ∙ sym k in
        rw (same, old_key) h
    | inr other ↦ rw (other, e) (lookup-insert_self (runtime_key c.core_type tag) _ _)
  ]

  abbrev CoherentAfter : Reloaded S B → Type 0
  CoherentAfter (d, r, o) = Coherent d r

  module _ (c : Controller S B) (r : Registry B) (built_tag : String) (n : NodeInfo)
      (users : List UserInfo) (alive : Option (Map ℕ ℕ)) (cert_ok : Bool) where
    abbrev pub new_tag : String
    new_tag = if c.name == "" then built_tag else c.logical_tag

    abbrev pub new_key : String
    new_key = if c.name == "" then runtime_key c.core_type built_tag else c.runtime_key

    pub reload-elim :
        (P : Reloaded S B → Type 0)
        → P (c, r, aborted)
        → ((s : S) → P (record c { server = s }, r, aborted))
        → ((s : S)
            → let (r', l) = swap_limiter core c r new_tag users alive in
              P (bring_up core c r' new_tag new_key n users alive s l))
        → P (reload_node_config core c r built_tag n users alive cert_ok)
    unfolding reload_node_config
    reload-elim P invalid kept brought =
        let del = core.del_node c.server c.runtime_key in
        elim (Bool-cases (not (valid core c n cert_ok))) [
          | inl e ↦ rw e invalid
          | inr e ↦ rw e (elim (Bool-cases (not del.1)) [
            | inl f ↦ rw f (kept del.0)
            | inr f ↦ rw f (brought del.0)
          ])
        ]

    new_key-runtime_key :
        c.runtime_key ≡ runtime_key c.core_type c.logical_tag
        → new_key ≡ runtime_key c.core_type new_tag
    new_key-runtime_key k = elim (Bool-cases (c.name == "")) [ inl e ↦ rw e refl | inr e ↦ rw e k ]

    -- If the controller's key is that of its core and tag, and its limiter stands under that key
    -- in the global map, then so it is after a reload, whatever the outcome.
    pub reload_node_config-Coherent :
        Coherent c r
        → let (d, r', o) = reload_node_config core c r built_tag n users alive cert_ok in
          Coherent d r'
    reload_node_config-Coherent h =
        reload-elim CoherentAfter h (λ s. h)
          (λ s.
            bring_up-elim CoherentAfter c _ new_tag new_key n users alive s _
              (λ s'. rollback-Coherent c r new_tag users alive s' h)
              (λ s'.
                commit-Coherent c _ new_tag new_key n users alive s' _ (new_key-runtime_key h.0) (
                  swap_limiter-lookup c r new_tag new_key users alive h (new_key-runtime_key h.0))))
