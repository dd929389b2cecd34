-- ===== src/Node/Lifecycle/Undo.antt =====
-- What a Start that fails, and a Start and its Close, leave of the shared registries
-- (node/controller.go).
use yunzes_node.Base.{
  ◌≡◌, refl, ◌≢◌, inl, inr, String, Bool, false, not, ◌&&◌, Option, none, some, List, ◌==◌, lookup,
  string_eq, arith, eq_iff, lookup-insert, erase-insert, ◌<>◌, Bool-cases, Result-cases,
}
use Prim.Native.String.append
use yunzes_node.Format.{runtime_key}
use yunzes_node.Core.Interface.{VCore}
use yunzes_node.Limiter.State.{Limiter, new_limiter}
use yunzes_node.Limiter.Registry.{Registry, add_limiter, delete_limiter}
use yunzes_node.Node.Ports.{PortRegistry, ListenerSpec, listener_specs_for, reserve, release}
use yunzes_node.Node.Ports
use yunzes_node.Node.Ports.Exclusive.{IsExclusive, reserve-IsExclusive}
use yunzes_node.Node.Ports.Release.{reserve_ok, reserve-release_eq}
use yunzes_node.Node.Controller.{Controller, protocol_security, needs_cert}
use yunzes_node.Node.Reload.{entries, add_some_users}
use yunzes_node.Node.Lifecycle.{
  Setup, Pulled, Shared, tasks_start, new_controller, undo, bring_up, start_reserved, start_pulled,
  tag_for, start, close,
}

-- The same listeners and the same limiters.
abbrev pub SameShared : {S B : Type 0} → Shared S B → Shared S B → Type 0
SameShared w v = (w.ports ≡ v.ports) × (w.limiters ≡ v.limiters)

-- The listeners satisfy their invariant, and each limiter is a registered key's.
abbrev pub IsTidy : {S B : Type 0} → Shared S B → Type 0
IsTidy w =
    IsExclusive w.ports
    × ((k : String) → lookup k w.ports.runtime_keys ≡ none → lookup k w.limiters ≡ none)

joined-ne-empty : (core_type tag : String) → core_type <> "|" <> tag ≢ ""
joined-ne-empty String.[] tag h =
    let e = append.nil ("|" <> tag) in let f = append.cons "|" "" tag in cc
joined-ne-empty (String.◌∷◌ c s) tag h = let e = append.cons c s ("|" <> tag) in cc

not_empty : (core_type tag : String) → (runtime_key core_type tag == "") ≡ false
unfolding runtime_key
not_empty core_type tag = elim (Bool-cases (core_type <> "|" <> tag == "")) [
  | inl e ↦ absurd (joined-ne-empty core_type tag ((eq_iff _ "").0 e))
  | inr e ↦ e
]

-- A Start has failed and left `v` as it was, or it has succeeded, the registries are tidy, and a
-- Close of its controller that is handed them leaves them as `v`.
abbrev pub Undone :
    {S B : Type 0} → VCore S → Shared S B → Shared S B × Option (Controller S B) → Type 0
Undone core v (w, none) = SameShared w v
Undone core v (w, some c) = SameShared (close core c w).0 v × IsTidy w

module _ {S B : Type 0} (core : VCore S) (u : Setup) (pulled : Pulled) (tag : String)
    (v : Shared S B) where
  abbrev with_limiter : Registry B
  with_limiter =
      (add_limiter v.limiters u.core_type tag u.limit_config pulled.users (entries pulled.alive)).0

  module _ (ports : PortRegistry) (specs : List ListenerSpec)
      (fresh : lookup (runtime_key u.core_type tag) v.limiters ≡ none)
      (committed : ports ≡ Ports.commit v.ports (runtime_key u.core_type tag) tag specs)
      (exclusive : IsExclusive ports) (tidy : IsTidy v)
      (released : release ports (runtime_key u.core_type tag) ≡ v.ports) where
    deleted : delete_limiter with_limiter u.core_type tag ≡ v.limiters
    unfolding add_limiter delete_limiter
    deleted = erase-insert (runtime_key u.core_type tag) _ v.limiters fresh

    undone :
        (s s' : S)
        → SameShared
            (undo core u pulled tag
              (record { server = s; limiters = with_limiter; ports = ports })
              s')
            v
    unfolding undo
    undone s s' = (released, deleted)

    closed :
        (s s' : S) (l : Limiter B)
        → SameShared
            (close core
              (new_controller core u pulled tag s' l)
              (record { server = s; limiters = with_limiter; ports = ports })).0
            v
    unfolding close new_controller
    closed s s' l = rw (not_empty u.core_type tag) (released, deleted)

    up-IsTidy :
        (s : S)
        → IsTidy (
            let w : Shared S B = record { server = s; limiters = with_limiter; ports = ports } in w)
    unfolding add_limiter Ports.commit
    up-IsTidy s = (
      exclusive,
      λ k free.
          let rk = runtime_key u.core_type tag in
          let info : Limiter B =
            new_limiter rk u.limit_config pulled.users (entries pulled.alive) in
          ground (
            arith,
            free,
            committed,
            lookup-insert rk k tt v.ports.runtime_keys,
            lookup-insert rk k info v.limiters,
            tidy.1 k,
          ),
    )

    bring_up-Undone : Undone core v (bring_up core u pulled tag (record v { ports = ports }))
    unfolding bring_up
    bring_up-Undone =
        let rk = runtime_key u.core_type tag in
        let up = core.add_node v.server rk (some pulled.node) in
        let fill = add_some_users core up.0 rk (some pulled.node) pulled.users in
        elim (Bool-cases (not up.1)) [
          | inl e ↦ rw e (undone v.server up.0)
          | inr e ↦ rw e (elim (Bool-cases (not (fill.1 && tasks_start u.limit_config))) [
            | inl f ↦ rw f (undone v.server (core.del_node fill.0 rk).0)
            | inr f ↦ rw f (closed fill.0 fill.0 _, up-IsTidy fill.0)
          ])
        ]

    start_reserved-Undone :
        (cert_ok : Bool) → Undone core v (start_reserved core u pulled tag v ports cert_ok)
    unfolding start_reserved
    start_reserved-Undone cert_ok =
        elim (Bool-cases (needs_cert (protocol_security pulled.node) && not cert_ok)) [
          | inl e ↦ rw e (released, refl)
          | inr e ↦ rw e bring_up-Undone
        ]

  start_pulled-Undone :
      (cert_ok : Bool) → IsTidy v → Undone core v (start_pulled core u pulled tag v cert_ok)
  unfolding start_pulled
  start_pulled-Undone cert_ok tidy =
      let rk = runtime_key u.core_type tag in
      elim (Result-cases (listener_specs_for pulled.node u.listen_ip)) [
        | inl (_, e) ↦ rw (e, start_pulled) (refl, refl)
        | inr (specs, e) ↦
            rw (e, start_pulled)
              (elim (Result-cases (reserve v.ports rk tag specs)) [
                | inl (_, f) ↦ rw f (refl, refl)
                | inr (ports, f) ↦
                    let (unused, _, _, committed) = reserve_ok v.ports ports rk tag specs f in
                    let exclusive = reserve-IsExclusive v.ports rk tag specs tidy.0 in
                    rw f (
                      start_reserved-Undone ports specs (tidy.1 rk unused) committed
                        (rw f at exclusive) tidy
                        (reserve-release_eq v.ports ports rk tag specs tidy.0 f) cert_ok)
              ])
      ]

-- From registries in which the listeners satisfy their invariant and each limiter is a registered
-- key's, a Start that fails, at whatever step, leaves every listener reservation and every limiter
-- as it was; a Start that succeeds keeps those two conditions, and a Close that finds the
-- registries as Start left them takes them back to what they were, whatever the core answers.
pub start-Undone :
    {S B : Type 0} (core : VCore S) (u : Setup) (pulled : Option Pulled) (built_tag : String)
    (cert_ok : Bool) (v : Shared S B)
    → IsTidy v
    → Undone core v (start core u pulled built_tag cert_ok v)
unfolding start
start-Undone core u none built_tag cert_ok v tidy = (refl, refl)
start-Undone core u (some pulled) built_tag cert_ok v tidy =
    start_pulled-Undone core u pulled (tag_for u built_tag) v cert_ok tidy
