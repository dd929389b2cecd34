-- ===== src/Tests/Cores.antt =====
-- Runs of the Selector, and its theorems applied to them.
use yunzes_node.Base.{
  ℕ, ◌+◌, ◌≡◌, refl, inl, String, Bool, true, false, none, some, [], ◌∷◌, lookup, Distinct, insert,
  erase, string_eq, cut,
}
use yunzes_node.Panel.{NodeInfo}
use yunzes_node.Core.Interface.{VCore}
use yunzes_node.Core.Selector.{
  Selector, NodeOptions, Kind, checked_parts, validate_runtime_key, is_supported, fits,
  pick_fitting, pick, on_core, add_to, add_node, routed, del_node,
}
use yunzes_node.Core.Selector.Routing.{Added, add_node-Added, add_node-routed, routed_unknown}

program : Unit {0}
unfolding lookup insert erase cut checked_parts validate_runtime_key is_supported fits pick_fitting
    pick on_core add_to add_node routed del_node
program = tt

-- A core is its type and the number of its nodes.
abbrev counting : VCore (String × ℕ)
counting = record {
  add_node = λ s tag n. ((s.0, s.1 + 1), true);
  del_node = λ s tag. (s, true);
  add_users = λ s tag n us. (s, true);
  del_users = λ s tag us. (s, true);
  get_user_traffic_slice = λ s tag reset. (s, []);
  add_user_traffic_slice = λ s tag ts. (s, true);
}

abbrev kind : Kind (String × ℕ)
kind = record { type_of = λ s. s.0; protocols = λ s. "vless" ∷ [] }

abbrev both : Selector (String × ℕ)
both = record { cores = ("xray", ("xray", 0)) ∷ ("sing", ("sing", 0)) ∷ []; nodes = [] }

abbrev one_node : Selector (String × ℕ)
one_node = record {
  cores = ("xray", ("xray", 0)) ∷ ("sing", ("sing", 1)) ∷ [];
  nodes = ("sing|t", "sing") ∷ [];
}

abbrev node : NodeInfo
node = record { id = 1; node_type = "vless"; push_interval = 60; pull_interval = 60; common = none }

abbrev sing : NodeOptions
sing = record { core_name = ""; core = "sing" }

adds : add_node counting kind both "sing|t" node sing true ≡ (one_node, true)
unfolding program
adds = refl

deletes : (del_node counting kind one_node "sing|t").0.nodes ≡ []
unfolding program
deletes = refl

named : Distinct both.cores
unfolding program
named = (refl, (refl, tt))

add_node-Added_example :
    Added counting kind both "sing|t" node sing true
      (add_node counting kind both "sing|t" node sing true)
add_node-Added_example = add_node-Added counting kind both "sing|t" node sing true named

abbrev twice : String × ℕ → (String × ℕ) × Bool
twice s = ((s.0, s.1 + s.1), true)

add_node-routed_example :
    (key : String) × ((s : String × ℕ) × (lookup key both.cores ≡ some s)
      × (let s' = (counting.add_node s "sing|t" (some node)).0 in
          routed counting kind one_node "sing|t" twice
          ≡ (record one_node { cores = insert key (twice s').0 one_node.cores }, (twice s').1)))
add_node-routed_example =
    add_node-routed counting kind both one_node "sing|t" node sing true twice named adds

is_invalid : validate_runtime_key "clash|t" ≡ none
unfolding program
is_invalid = refl

routed_unknown_example : routed counting kind one_node "clash|t" twice ≡ (one_node, false)
routed_unknown_example = routed_unknown counting kind one_node "clash|t" twice (inl is_invalid)
