-- ===== src/Node/Report/Cores.antt =====
-- The report task (node/user.go) on the counters of core/xray/user.go and core/sing/user.go.
use yunzes_node.Base.{
  ℕ, ◌+◌, ◌≡◌, refl, ◌⊎◌, inl, inr, String, Bool, false, some, lookup, string_eq, All,
}
use yunzes_node.Counter.{TrafficCounter}
use yunzes_node.Core.Interface.{VCore, total}
use yunzes_node.Core.Slices.{Traffics, core_of}
use yunzes_node.Core.Slices.Credit.{Covered, held_in, held_at, ReadyAt, core_conserves}
use yunzes_node.Core.Slices.Reverse.{OneUser, HasUid, OneUser-Covered}
use yunzes_node.Node.Controller.{Controller}
use yunzes_node.Node.Report.{report_traffic}
use yunzes_node.Node.Report.NoLoss.{Drops, report_traffic-conserves}

module _ {R : Type 0} (base : VCore (Traffics × R)) where
  ready :
      (s : Traffics × R) (tag : String) (m : TrafficCounter)
      → lookup tag s.0.counters ≡ some m
      → Covered s.0.uid_map m
      → ReadyAt base tag s
  ready s tag m e h = rw (e, ReadyAt) h

  -- On a core whose uid map has one user for each uid and knows every user that the node's counter
  -- counts, one report cycle loses no byte of any user: what the counter held is what it holds
  -- afterwards and what the panel has accepted, unless the push failed and this failure is over the
  -- cap of the drop policy.
  pub report_traffic-no_loss :
      {B : Type 0} (c : Controller (Traffics × R) B) (reported : Bool) (uid : ℕ)
      (m : TrafficCounter)
      → lookup c.runtime_key c.server.0.counters ≡ some m
      → OneUser c.server.0.uid_map
      → All (λ e. HasUid c.server.0.uid_map e.0) m
      → let (c', sent) = report_traffic (core_of base) c reported in
        ((reported ≡ false) × Drops c)
        ⊎ (held_at base c.runtime_key c'.server uid + total uid sent
            ≡ held_in c.server.0.uid_map uid m)
  report_traffic-no_loss c reported uid m e o h =
      elim (report_traffic-conserves (core_of base) c.runtime_key
        (core_conserves base c.runtime_key) c reported uid refl
        (ready c.server c.runtime_key m e (OneUser-Covered c.server.0.uid_map m o h))) [
          | inl d ↦ inl d
          | inr k ↦ inr (rw (e, held_at) at k)
        ]
