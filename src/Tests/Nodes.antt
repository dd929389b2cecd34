-- ===== src/Tests/Nodes.antt =====
-- Runs of the node package, and its theorems applied to them.
use yunzes_node.Base.{◌≡◌, refl, [], ◌∷◌, lookup, insert, erase, ok}
use yunzes_node.Node.Ports.{
  ListenerSpec, PortRegistry, new_port_registry, normalize_listen_addr, wild4, wild6, specific_v4,
  listener_conflict, normalized, find_conflict, first_conflict, owners, commit, reserve, tag_of,
  drop_tag, release,
}
use yunzes_node.Node.Ports.Exclusive.{
  IsExclusive, after_reserve, listener_conflict_comm, new_port_registry-IsExclusive,
  reserve-IsExclusive,
}
use yunzes_node.Node.Ports.Release.{SameRegistry, release-IsExclusive, reserve-release}

program : Unit {0}
unfolding lookup insert erase normalize_listen_addr wild4 wild6 specific_v4 listener_conflict
    normalized find_conflict first_conflict owners commit reserve tag_of drop_tag release
    new_port_registry
program = tt

abbrev https : ListenerSpec
https = record { addr = ""; port = 443; transport = "tcp" }

abbrev local : ListenerSpec
local = record { addr = "127.0.0.1"; port = 443; transport = "tcp" }

abbrev one_node : PortRegistry
one_node = record {
  listeners =
      record { spec = record https { addr = "0.0.0.0" }; runtime_key = "xray|a"; logical_tag = "a" }
      ∷ [];
  logical_tags = ("a", "xray|a") ∷ [];
  runtime_keys = ("xray|a", tt) ∷ [];
}

reserves : reserve new_port_registry "xray|a" "a" (https ∷ []) ≡ ok one_node
unfolding program
reserves = refl

releases : release one_node "xray|a" ≡ new_port_registry
unfolding program
releases = refl

reserve-IsExclusive_example :
    IsExclusive
      (after_reserve new_port_registry (reserve new_port_registry "xray|a" "a" (https ∷ [])))
reserve-IsExclusive_example =
    reserve-IsExclusive new_port_registry "xray|a" "a" (https ∷ []) new_port_registry-IsExclusive

one_node-IsExclusive : IsExclusive one_node
unfolding program
one_node-IsExclusive = record {
  owned = (refl, tt);
  tagged = (refl, tt);
  one_tag = (tt, tt);
  apart = (tt, tt);
}

release-IsExclusive_example : IsExclusive (release one_node "xray|a")
release-IsExclusive_example = release-IsExclusive one_node "xray|a" one_node-IsExclusive

reserve-release_example : SameRegistry (release one_node "xray|a") new_port_registry
reserve-release_example =
    reserve-release new_port_registry one_node "xray|a" "a" (https ∷ [])
      new_port_registry-IsExclusive reserves

listener_conflict_comm_example : listener_conflict https local ≡ listener_conflict local https
listener_conflict_comm_example = listener_conflict_comm https local
