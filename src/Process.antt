-- ===== src/Process.antt =====
-- reloadProcess of cmd/reload.go. What the builders answer is an input: each builds a core or starts
-- the nodes of a core, or fails. Cores and node runners are opaque handles of types `K` and `N`. The
-- result carries the calls on handles in their order.
pub mod NoLeak
use yunzes_node.Base.{Option, none, some, List, [], ◌∷◌, ◌++◌}

pub data ReloadOutcome : Type 0 where
  succeeded : ReloadOutcome
  kept_old : ReloadOutcome
  restored_old : ReloadOutcome
  offline : ReloadOutcome

-- `newNodes`: a runner, or an error with or without a runner that has to be closed.
pub data NodesResult (N : Type 0) : Type 0 where
  started : N → NodesResult N
  failed : Option N → NodesResult N

pub data Event (K N : Type 0) : Type 0 where
  core_built : K → Event K N
  core_closed : K → Event K N
  nodes_built : N → Event K N
  nodes_closed : N → Event K N

-- The handles that the caller goes on with, what happened, and the calls.
pub record Reloading (K N : Type 0) : Type 0 where
  pub core : Option K
  pub nodes : Option N
  pub outcome : ReloadOutcome
  pub events : List (Event K N)

module _ {K N : Type 0} where
  -- A nil handle is not closed.
  unfoldable pub close_nodes : Option N → List (Event K N)
  close_nodes none = []
  close_nodes (some n) = nodes_closed n ∷ []

  unfoldable pub close_core : Option K → List (Event K N)
  close_core none = []
  close_core (some k) = core_closed k ∷ []

  unfoldable pub tear_down : Option K → Option N → List (Event K N)
  tear_down old_core old_nodes = close_nodes old_nodes ++ close_core old_core

  -- A runner that comes with an error is closed, and then its core.
  unfoldable pub drop : K → Option N → List (Event K N)
  drop k none = core_closed k ∷ []
  drop k (some n) = nodes_built n ∷ nodes_closed n ∷ core_closed k ∷ []

  -- Rebuilding the old runtime, after `events`.
  unfoldable pub restore : List (Event K N) → Option K → NodesResult N → Reloading K N
  restore events none nodes = record {
    core = none;
    nodes = none;
    outcome = offline;
    events = events;
  }
  restore events (some k) (started n) = record {
    core = some k;
    nodes = some n;
    outcome = restored_old;
    events = events ++ core_built k ∷ nodes_built n ∷ [];
  }
  restore events (some k) (failed n) = record {
    core = none;
    nodes = none;
    outcome = offline;
    events = events ++ core_built k ∷ drop k n;
  }

  -- From the new core on: the old runtime goes, and the new nodes have answered `nodes`.
  unfoldable pub swap :
      Option K → Option N → K → NodesResult N → Option K → NodesResult N → Reloading K N
  swap old_core old_nodes k (started n) again nodes = record {
    core = some k;
    nodes = some n;
    outcome = succeeded;
    events = core_built k ∷ tear_down old_core old_nodes ++ nodes_built n ∷ [];
  }
  swap old_core old_nodes k (failed n) again nodes =
      restore (core_built k ∷ tear_down old_core old_nodes ++ drop k n) again nodes

  -- The answers in the order of the calls: the new core and its nodes, the old core and its nodes.
  unfoldable pub reload_process :
      Option K → Option N → Option K → NodesResult N → Option K → NodesResult N → Reloading K N
  reload_process old_core old_nodes none new_nodes again nodes = record {
    core = old_core;
    nodes = old_nodes;
    outcome = kept_old;
    events = [];
  }
  reload_process old_core old_nodes (some k) new_nodes again nodes =
      swap old_core old_nodes k new_nodes again nodes
