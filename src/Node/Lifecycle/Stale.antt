-- ===== src/Node/Lifecycle/Stale.antt =====
-- A Close (node/controller.go) after a reload (node/reload.go) that has changed the runtime key.
use yunzes_node.Base.{
  ℕ, ◌≡◌, refl, String, Bool, true, Option, none, List, ◌==◌, Map, lookup, string_eq, arith, subst,
}
use yunzes_node.Format.{runtime_key}
use yunzes_node.Panel.{UserInfo, NodeInfo}
use yunzes_node.Core.Interface.{VCore}
use yunzes_node.Limiter.State.{Limiter}
use yunzes_node.Limiter.Registry.{Registry}
use yunzes_node.Node.Ports.{PortRegistry, release}
use yunzes_node.Node.Controller.{Controller}
use yunzes_node.Node.Reload.{reloaded, Reloaded, rollback, commit, reload_node_config}
use yunzes_node.Node.Reload.Outcomes.{bring_up-elim, reload-elim}
use yunzes_node.Node.Lifecycle.{Shared, close}

release_unknown :
    (p : PortRegistry) (rk : String) → lookup rk p.runtime_keys ≡ none → release p rk ≡ p
unfolding release
release_unknown p rk e = rw (e, release) refl

close_unknown :
    {S B : Type 0} (core : VCore S) (d : Controller S B) (w : Shared S B)
    → lookup d.runtime_key w.ports.runtime_keys ≡ none
    → (close core d w).0.ports ≡ w.ports
unfolding close
close_unknown core d w e = ground (arith, release_unknown w.ports d.runtime_key e)

module _ {S B : Type 0} (core : VCore S) (c : Controller S B) (r : Registry B) (built_tag : String)
    (n : NodeInfo) (users : List UserInfo) (alive : Option (Map ℕ ℕ)) (cert_ok : Bool)
    (unnamed : (c.name == "") ≡ true) where
  abbrev Rekeyed : Reloaded S B → Type 0
  Rekeyed (d, _, reloaded) = d.runtime_key ≡ runtime_key c.core_type built_tag
  Rekeyed (d, _, _) = Unit

  rollback-Rekeyed : (r' : Registry B) (tag : String) (s : S) → Rekeyed (rollback core c r' tag s)
  unfolding rollback
  rollback-Rekeyed r' tag s = tt

  commit-Rekeyed :
      (r' : Registry B) (tag rk : String) (s : S) (l : Limiter B)
      → rk ≡ runtime_key c.core_type built_tag
      → Rekeyed (commit core c r' tag rk n users alive s l)
  unfolding commit
  commit-Rekeyed r' tag rk s l k = k

  reload-Rekeyed : Rekeyed (reload_node_config core c r built_tag n users alive cert_ok)
  reload-Rekeyed =
      reload-elim core c r built_tag n users alive cert_ok Rekeyed tt (λ s. tt)
        (λ s.
          bring_up-elim core Rekeyed c _ _ _ n users alive s _ (λ s'. rollback-Rekeyed _ _ s')
            (λ s'. commit-Rekeyed _ _ _ s' _ (rw unnamed refl)))

  -- If the controller has no pinned name, a reload of it succeeds, and the new key is not
  -- reserved in the port registry, then a Close of the reloaded controller leaves the port
  -- registry as it is, reservations under the old key included.
  pub reload-close_keeps_ports :
      (d : Controller S B) (r' : Registry B) (w : Shared S B)
      → lookup (runtime_key c.core_type built_tag) w.ports.runtime_keys ≡ none
      → reload_node_config core c r built_tag n users alive cert_ok ≡ (d, r', reloaded)
      → (close core d w).0.ports ≡ w.ports
  reload-close_keeps_ports d r' w fresh e =
      let key : d.runtime_key ≡ runtime_key c.core_type built_tag =
        subst Rekeyed e reload-Rekeyed in
      close_unknown core d w (rw key fresh)
