-- ===== src/Node/Startup/Rollback.antt =====
-- What the starts of node/node.go leave of the shared registries when they fail, and when the node is
-- closed again.
use yunzes_node.Base.{
  ℕ, refl, ap, ◌∙◌, inl, inr, Bool, true, false, Option, none, some, List, [], ◌∷◌, ◌==◌, string_eq,
  Bool-cases,
}
use yunzes_node.Panel.{BasicConfig}
use yunzes_node.Core.Interface.{VCore}
use yunzes_node.Limiter.Registry.{delete_limiter}
use yunzes_node.Node.Ports.{release}
use yunzes_node.Node.Controller.{Controller}
use yunzes_node.Node.Lifecycle.{Shared, start, close}
use yunzes_node.Node.Lifecycle.Undo.{SameShared, IsTidy, Undone, start-Undone}
use yunzes_node.Node.Intervals.{resolve_intervals}
use yunzes_node.Node.Startup.{
  Prepared, LocalNode, Answered, prepare_local, prepare_server, prepare_each, rollback_controllers,
  start_each, finish, start_local, start_nodes, close_node,
}

module _ {S B : Type 0} (core : VCore S) where
  SameShared-trans : (u v w : Shared S B) → SameShared u v → SameShared v w → SameShared u w
  SameShared-trans u v w (e, f) (e', f') = (e ∙ e', f ∙ f')

  -- What a close does to the registries depends on nothing else.
  close-SameShared :
      (c : Controller S B) (v w : Shared S B)
      → SameShared v w
      → SameShared (close core c v).0 (close core c w).0
  unfolding close
  close-SameShared c v w (e, f) = elim (Bool-cases (c.runtime_key == "")) [
    | inl h ↦ rw h (e, f)
    | inr h ↦ rw h (
      ap (λ p. release p c.runtime_key) e,
      ap (λ r. delete_limiter r c.core_type c.logical_tag) f,
    )
  ]

  rollback-SameShared :
      (cs : List (Controller S B)) (v w : Shared S B)
      → SameShared v w
      → SameShared (rollback_controllers core cs v) (rollback_controllers core cs w)
  unfolding rollback_controllers
  rollback-SameShared [] v w h = h
  rollback-SameShared (c ∷ cs) v w h = rollback-SameShared cs _ _ (close-SameShared c v w h)

  -- Taking the controllers back leads to `v`, and another start may begin.
  Settled : Shared S B → List (Controller S B) → Shared S B → Type 0
  Settled v cs w = SameShared (rollback_controllers core cs w) v × IsTidy w

  abbrev pub Restored : Shared S B → Shared S B × Option (List (Controller S B)) → Type 0
  Restored v (w, none) = SameShared w v
  Restored v (w, some cs) = SameShared (rollback_controllers core cs w) v × IsTidy w

  -- After one start, by what is known of the rest of the loop.
  after_start-Restored :
      (v w : Shared S B) (cs : List (Controller S B)) (ps : List (Option Prepared))
      (r : Shared S B × Option (Controller S B))
      → Settled v cs w
      → Undone core w r
      → ((cs' : List (Controller S B)) (w' : Shared S B)
          → Settled v cs' w'
          → Restored v (start_each core cs' ps w'))
      → Restored v (elim (r.1) [
        | none ↦ (rollback_controllers core cs r.0, none)
        | some c ↦ start_each core (c ∷ cs) ps r.0
      ])
  unfolding Settled rollback_controllers
  after_start-Restored v w cs ps (w', none) h u rest =
      let back = rollback_controllers core cs in
      SameShared-trans (back w') (back w) v (rollback-SameShared cs w' w u) h.0
  after_start-Restored v w cs ps (w', some c) h u rest =
      let back = rollback_controllers core cs in
      let closed = (close core c w').0 in
      rest (c ∷ cs) w'
        (SameShared-trans (back closed) (back w) v (rollback-SameShared cs closed w u.0) h.0, u.1)

  start_each-Restored :
      (v : Shared S B) (cs : List (Controller S B)) (ps : List (Option Prepared)) (w : Shared S B)
      → Settled v cs w
      → Restored v (start_each core cs ps w)
  unfolding start_each Settled rollback_controllers
  start_each-Restored v cs [] w h = h
  start_each-Restored v cs (none ∷ ps) w h = h.0
  start_each-Restored v cs (some p ∷ ps) w h =
      after_start-Restored v w cs ps (start core p.setup p.pulled p.built_tag p.cert_ok w) h
        (start-Undone core p.setup p.pulled p.built_tag p.cert_ok w h.1)
        λ cs' w' h'. start_each-Restored v cs' ps w' h'

  -- The start has failed and the registries are as they were, or it has succeeded, they are tidy,
  -- and closing the node takes them back.
  abbrev pub Reversible : Shared S B → List (Controller S B) × Shared S B × Bool → Type 0
  Reversible v (cs, w, false) = SameShared w v
  Reversible v (cs, w, true) = SameShared (close_node core cs w).1 v × IsTidy w

  finish-Reversible :
      (v : Shared S B) (old : List (Controller S B))
      (r : Shared S B × Option (List (Controller S B)))
      → Restored v r
      → Reversible v (finish core old r)
  unfolding finish close_node
  finish-Reversible v old (w, none) h = h
  finish-Reversible v old (w, some cs) h = h

  all-Reversible :
      (old : List (Controller S B)) (ps : List (Option Prepared)) (v : Shared S B)
      → IsTidy v
      → Reversible v (finish core old (start_each core [] ps v))
  unfolding Settled rollback_controllers
  all-Reversible old ps v tidy =
      finish-Reversible v old _ (start_each-Restored v [] ps v ((refl, refl), tidy))

  -- From tidy registries, a start from the local configuration that fails, at whatever controller
  -- and step, leaves every listener and every limiter as it was; one that succeeds leaves tidy
  -- registries, and closing the node right after it takes them back to what they were.
  pub start_local-Reversible :
      (old : List (Controller S B)) (nodes : List LocalNode) (v : Shared S B)
      → IsTidy v
      → Reversible v (start_local core old nodes v)
  unfolding start_local
  start_local-Reversible old nodes v tidy =
      all-Reversible old (prepare_each prepare_local nodes) v tidy

  -- From tidy registries, a start from the panel's list of protocols that fails, for an answer that is
  -- an error or at whatever protocol and step, leaves every listener and every limiter as it was; one
  -- that succeeds leaves tidy registries, and closing the node right after it takes them back to what
  -- they were.
  pub start_nodes-Reversible :
      (old : List (Controller S B)) (server_id : ℕ)
      (answer : Option (List Answered × Option BasicConfig)) (v : Shared S B)
      → IsTidy v
      → Reversible v (start_nodes core old server_id answer v)
  unfolding start_nodes
  start_nodes-Reversible old server_id none v tidy = (refl, refl)
  start_nodes-Reversible old server_id (some ([], basic)) v tidy = (refl, refl)
  start_nodes-Reversible old server_id (some (p ∷ ps, basic)) v tidy =
      let (push, pull) = resolve_intervals basic in
      all-Reversible old (prepare_each (prepare_server server_id push pull) (p ∷ ps)) v tidy
