-- ===== src/Process/NoLeak.antt =====
-- What is open after a reload of the process (cmd/reload.go).
use yunzes_node.Base.{ℕ, ◌+◌, ◌≡◌, refl, Option, none, some, List, [], ◌∷◌, ◌++◌, arith}
use yunzes_node.Process.{
  NodesResult, started, failed, Event, core_built, core_closed, nodes_built, nodes_closed,
  Reloading, close_nodes, close_core, tear_down, drop, restore, swap, reload_process,
}

abbrev pub count : {A : Type 0} → Option A → ℕ
count none = 0
count (some _) = 1

module _ {K N : Type 0} where
  -- How often a core, or a runner, was built or closed.
  abbrev pub cores_built : List (Event K N) → ℕ
  cores_built [] = 0
  cores_built (core_built _ ∷ es) = 1 + cores_built es
  cores_built (core_closed _ ∷ es) = cores_built es
  cores_built (nodes_built _ ∷ es) = cores_built es
  cores_built (nodes_closed _ ∷ es) = cores_built es

  abbrev pub cores_closed : List (Event K N) → ℕ
  cores_closed [] = 0
  cores_closed (core_closed _ ∷ es) = 1 + cores_closed es
  cores_closed (core_built _ ∷ es) = cores_closed es
  cores_closed (nodes_built _ ∷ es) = cores_closed es
  cores_closed (nodes_closed _ ∷ es) = cores_closed es

  abbrev pub runners_built : List (Event K N) → ℕ
  runners_built [] = 0
  runners_built (nodes_built _ ∷ es) = 1 + runners_built es
  runners_built (core_built _ ∷ es) = runners_built es
  runners_built (core_closed _ ∷ es) = runners_built es
  runners_built (nodes_closed _ ∷ es) = runners_built es

  abbrev pub runners_closed : List (Event K N) → ℕ
  runners_closed [] = 0
  runners_closed (nodes_closed _ ∷ es) = 1 + runners_closed es
  runners_closed (core_built _ ∷ es) = runners_closed es
  runners_closed (core_closed _ ∷ es) = runners_closed es
  runners_closed (nodes_built _ ∷ es) = runners_closed es

  -- Starting from `cores` and `runners` open ones, what is open is what the caller goes on with.
  abbrev pub Balanced : ℕ → ℕ → Reloading K N → Type 0
  Balanced cores runners r =
      (cores + cores_built r.events ≡ count r.core + cores_closed r.events)
      × (runners + runners_built r.events ≡ count r.nodes + runners_closed r.events)

  appended :
      (xs ys : List (Event K N))
      → (cores_built (xs ++ ys) ≡ cores_built xs + cores_built ys)
        × (cores_closed (xs ++ ys) ≡ cores_closed xs + cores_closed ys)
        × (runners_built (xs ++ ys) ≡ runners_built xs + runners_built ys)
        × (runners_closed (xs ++ ys) ≡ runners_closed xs + runners_closed ys)
  appended [] ys = (omega arith, omega arith, omega arith, omega arith)
  appended (core_built k ∷ xs) ys = ground (arith, appended xs ys)
  appended (core_closed k ∷ xs) ys = ground (arith, appended xs ys)
  appended (nodes_built n ∷ xs) ys = ground (arith, appended xs ys)
  appended (nodes_closed n ∷ xs) ys = ground (arith, appended xs ys)

  -- Nothing is open after `es`.
  abbrev AllClosed : ℕ → ℕ → List (Event K N) → Type 0
  AllClosed cores runners es =
      (cores + cores_built es ≡ cores_closed es) × (runners + runners_built es ≡ runners_closed es)

  restore-Balanced :
      (cores runners : ℕ) (es : List (Event K N)) (k : Option K) (n : NodesResult N)
      → AllClosed cores runners es
      → Balanced cores runners (restore es k n)
  unfolding restore drop
  restore-Balanced cores runners es none n h = (omega arith, omega arith)
  restore-Balanced cores runners es (some k) (started n) h =
      let a = appended es (core_built k ∷ nodes_built n ∷ []) in (omega arith, omega arith)
  restore-Balanced cores runners es (some k) (failed none) h =
      let a = appended es (core_built k ∷ core_closed k ∷ []) in (omega arith, omega arith)
  restore-Balanced cores runners es (some k) (failed (some n)) h =
      let a = appended es (core_built k ∷ nodes_built n ∷ nodes_closed n ∷ core_closed k ∷ []) in
      (omega arith, omega arith)

  tear_down_lem :
      (c : Option K) (n : Option N)
      → let es = tear_down c n in
        (cores_built es ≡ 0)
        × (cores_closed es ≡ count c)
        × (runners_built es ≡ 0)
        × (runners_closed es ≡ count n)
  unfolding tear_down close_nodes close_core
  tear_down_lem none none = (refl, refl, refl, refl)
  tear_down_lem none (some n) = (refl, refl, refl, refl)
  tear_down_lem (some c) none = (refl, refl, refl, refl)
  tear_down_lem (some c) (some n) = (refl, refl, refl, refl)

  drop_lem :
      (k : K) (n : Option N)
      → let es = drop k n in
        (cores_built es ≡ 0) × (cores_closed es ≡ 1) × (runners_built es ≡ runners_closed es)
  unfolding drop
  drop_lem k none = (refl, refl, refl)
  drop_lem k (some n) = (refl, refl, refl)

  -- Whatever the builders answer, the cores that were open before the reload or were built by it
  -- are as many as those that it closes and those that the caller goes on with; and so are the
  -- node runners.
  pub reload_process-Balanced :
      (old_core : Option K) (old_nodes : Option N) (new_core : Option K) (new_nodes : NodesResult N)
      (again : Option K) (nodes : NodesResult N)
      → Balanced
          (count old_core)
          (count old_nodes)
          (reload_process old_core old_nodes new_core new_nodes again nodes)
  unfolding reload_process swap
  reload_process-Balanced c n none m again nodes = (omega arith, omega arith)
  reload_process-Balanced c n (some k) (started m) again nodes =
      let a = appended (tear_down c n) (nodes_built m ∷ []) in
      let t = tear_down_lem c n in (omega arith, omega arith)
  reload_process-Balanced c n (some k) (failed m) again nodes =
      let a = appended (tear_down c n) (drop k m) in
      let t = tear_down_lem c n in
      let d = drop_lem k m in
      restore-Balanced (count c) (count n) _ again nodes (omega arith, omega arith)
