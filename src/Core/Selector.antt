-- ===== src/Core/Selector.antt =====
-- The Selector of core/selector.go: cores by name, and for each node's runtime key the core that has
-- it. A core is a value of `S` with operations shared by all. Whether the raw options of a node
-- unmarshal is an input; what that writes to the options, and the type of the core that is written
-- there, is not modelled.
pub mod Routing
use yunzes_node.Base.{
  String, Bool, true, false, not, ◌&&◌, Option, none, some, List, [], ◌∷◌, ◌==◌, any, if◌then◌else◌,
  Map, lookup, insert, erase, or_else, string_eq, cut, ◌>>=◌,
}
use yunzes_node.Panel.{UserInfo, UserTraffic, NodeInfo}
use yunzes_node.Core.Interface.{VCore}

pub record Selector (S : Type 0) : Type 0 where
  pub cores : Map String S
  pub nodes : Map String String

pub record NodeOptions : Type 0 where
  pub core_name : String
  pub core : String

pub record Kind (S : Type 0) : Type 0 where
  pub type_of : S → String
  pub protocols : S → List String

-- `none` for an invalid key, else its core type and its logical tag; 124 is the code of "|".
unfoldable pub checked_parts : String × String → Option (String × String)
checked_parts (core_type, logical_tag) =
    if core_type == ""
    then none
    else if logical_tag == ""
    then none
    else if not (core_type == "xray") && not (core_type == "sing")
    then none
    else some (core_type, logical_tag)

unfoldable pub validate_runtime_key : String → Option (String × String)
validate_runtime_key rk = cut 124 rk >>= checked_parts

unfoldable pub is_supported : String → List String → Bool
is_supported protocol = any (λ p. protocol == p)

module _ {S : Type 0} (core : VCore S) (kind : Kind S) where
  unfoldable pub fits : NodeOptions → NodeInfo → S → Bool
  fits o n s =
      if o.core == "" then is_supported n.node_type (kind.protocols s) else o.core == kind.type_of s

  -- The last core of the walk that fits.
  unfoldable pub pick_fitting : NodeOptions → NodeInfo → Map String S → Option String
  pick_fitting o n [] = none
  pick_fitting o n ((key, s) ∷ m) =
      or_else (pick_fitting o n m) (if fits o n s then some key else none)

  unfoldable pub pick : NodeOptions → NodeInfo → Map String S → Option String
  pick o n m = if o.core_name == "" then pick_fitting o n m else some o.core_name

  -- A call on the core of a name: `none` if there is no such core.
  unfoldable pub on_core : Selector S → String → (S → S × Bool) → Option (Selector S × Bool)
  on_core sel key f = elim (lookup key sel.cores) [
    | none ↦ none
    | some s ↦ let (s', ok) = f s in some (record sel { cores = insert key s' sel.cores }, ok)
  ]

  abbrev or_error : Selector S → Option (Selector S × Bool) → Selector S × Bool
  or_error sel none = (sel, false)
  or_error sel (some r) = r

  abbrev when_ok : (Selector S → Selector S) → Selector S × Bool → Selector S × Bool
  when_ok f (sel, true) = (f sel, true)
  when_ok f (sel, false) = (sel, false)

  -- Only for a valid key.
  abbrev pub guarded : Selector S → String → Selector S × Bool → Selector S × Bool
  guarded sel tag r = elim (validate_runtime_key tag) [ none ↦ (sel, false) | some _ ↦ r ]

  unfoldable pub add_to : Selector S → String → NodeInfo → String → Selector S × Bool
  add_to sel tag n key =
      when_ok (λ sel'. record sel' { nodes = insert tag key sel'.nodes })
        (or_error sel (on_core sel key (λ s. core.add_node s tag (some n))))

  unfoldable pub add_node : Selector S → String → NodeInfo → NodeOptions → Bool → Selector S × Bool
  add_node sel tag n o raw_ok = guarded sel tag (elim (pick o n sel.cores) [
    | none ↦ (sel, false)
    | some key ↦ if o.core == "" && not raw_ok then (sel, false) else add_to sel tag n key
  ])

  -- A call that goes to the core that has the node.
  unfoldable pub routed : Selector S → String → (S → S × Bool) → Selector S × Bool
  routed sel tag f = guarded sel tag (elim (lookup tag sel.nodes) [
    | none ↦ (sel, false)
    | some key ↦ or_error sel (on_core sel key f)
  ])

  unfoldable pub del_node : Selector S → String → Selector S × Bool
  del_node sel tag =
      when_ok (λ sel'. record sel' { nodes = erase tag sel'.nodes })
        (routed sel tag (λ s. core.del_node s tag))

  unfoldable pub add_users :
      Selector S → String → Option NodeInfo → List UserInfo → Selector S × Bool
  add_users sel tag n us = routed sel tag (λ s. core.add_users s tag n us)

  unfoldable pub del_users : Selector S → String → List UserInfo → Selector S × Bool
  del_users sel tag us = routed sel tag (λ s. core.del_users s tag us)

  unfoldable pub add_user_traffic_slice : Selector S → String → List UserTraffic → Selector S × Bool
  add_user_traffic_slice sel tag ts = routed sel tag (λ s. core.add_user_traffic_slice s tag ts)
