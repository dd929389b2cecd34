-- ===== src/Node/Certs/Files.antt =====
-- writeFileAtomic of node/cert_manager.go on a disk of whole files, with the disk after every call,
-- and whether the contents of a file have been flushed. How each system call ends is an input. Directories are not modelled.
pub mod Atomic
use yunzes_node.Base.{
  ℕ, String, Bool, true, false, none, some, List, [], ◌∷◌, ◌++◌, if◌then◌else◌, Map, lookup, insert,
  erase, string_eq,
}

pub record File (X : Type 0) : Type 0 where
  pub content : X
  pub perm : ℕ
  pub synced : Bool

abbrev pub Disk : Type 0 → Type 0
Disk X = Map String (File X)

-- How the calls of one write end, the name that os.CreateTemp picks, and what the temporary file
-- holds before and during the write.
pub record Calls (X : Type 0) : Type 0 where
  pub tmp : String
  pub nothing : X
  pub partial : X
  pub mkdir : Bool
  pub create : Bool
  pub write : Bool
  pub sync : Bool
  pub close : Bool
  pub chmod : Bool
  pub rename : Bool
  pub remove : Bool

-- The disks after each call, the last of them, and whether an error is returned.
pub record Run (X : Type 0) : Type 0 where
  pub trail : List (Disk X)
  pub disk : Disk X
  pub success : Bool

module _ {X : Type 0} where
  unfoldable pub call : Bool → (Disk X → Disk X) → Disk X → Run X
  call true change d = record { trail = change d ∷ []; disk = change d; success = true }
  call false change d = record { trail = d ∷ []; disk = d; success = false }

  -- The next calls are made if there was no error.
  unfoldable pub and_then : Run X → (Disk X → Run X) → Run X
  and_then r next =
      if r.success
      then (let r' = next r.disk in
          record { trail = r.trail ++ r'.trail; disk = r'.disk; success = r'.success })
      else r

  abbrev pub same : Disk X → Disk X
  same d = d

  unfoldable pub set_perm : String → ℕ → Disk X → Disk X
  set_perm p perm d = elim (lookup p d) [
    | none ↦ d
    | some f ↦ insert p (record f { perm = perm }) d
  ]

  -- The flush of what has been written; only a file that is synced keeps its contents when the machine
  -- goes down.
  unfoldable pub flush : String → Disk X → Disk X
  flush p d = elim (lookup p d) [ none ↦ d | some f ↦ insert p (record f { synced = true }) d ]

  unfoldable pub move : String → String → Disk X → Disk X
  move from to d = elim (lookup from d) [ none ↦ d | some f ↦ insert to f (erase from d) ]

  -- The write of the contents: at first a part of it is there.
  unfoldable pub write_contents : Calls X → X → Disk X → Run X
  write_contents c contents d =
      and_then
        (call true (insert c.tmp (record { content = c.partial; perm = 384; synced = false })) d)
        (call c.write (insert c.tmp (record { content = contents; perm = 384; synced = false })))

  -- From the write to the rename.
  unfoldable pub fill_and_move : Calls X → String → X → ℕ → Disk X → Run X
  fill_and_move c p contents perm d = and_then (write_contents c contents d) λ d1.
      and_then (call c.sync (flush c.tmp) d1) λ d2.
        and_then (call c.close same d2)
          λ d3. and_then (call c.chmod (set_perm c.tmp perm) d3) (call c.rename (move c.tmp p))

  -- The deferred removal of the temporary file, after an error.
  unfoldable pub clean_up : Calls X → Run X → Run X
  clean_up c r =
      if r.success
      then r
      else (let d = if c.remove then erase c.tmp r.disk else r.disk in
          record { trail = r.trail ++ d ∷ []; disk = d; success = false })

  unfoldable pub write_file_atomic : Calls X → String → X → ℕ → Disk X → Run X
  write_file_atomic c p contents perm d = and_then (call c.mkdir same d) λ d1.
      and_then
        (call c.create (insert c.tmp (record { content = c.nothing; perm = 384; synced = false }))
          d1)
        λ d2. clean_up c (fill_and_move c p contents perm d2)
