-- ===== src/Node/Certs/Files/Atomic.antt =====
-- writeFileAtomic of node/cert_manager.go: what each of its calls, and an error, leave on the disk.
use yunzes_node.Base.{
  ℕ, ◌≡◌, refl, sym, ◌⊎◌, inl, inr, ◌≢◌, String, Bool, true, false, some, All, All-append,
  if◌then◌else◌, lookup, insert, erase, string_eq, arith, eq_iff, lookup-insert, lookup-erase,
  Bool-cases,
}
use yunzes_node.Node.Certs.Files.{
  File, Disk, Calls, Run, call, and_then, set_perm, flush, move, write_contents, fill_and_move,
  clean_up, write_file_atomic,
}

-- Every disk on the way satisfies `P`; the last one `Q` if there was no error, and `F` if there was.
pub record Passes {X : Type 0} (P F Q : Disk X → Type 0) (r : Run X) : Type 0 where
  pub on_the_way : All P r.trail
  pub at_error : r.success ≡ false → F r.disk
  pub at_success : r.success ≡ true → Q r.disk

module _ {X : Type 0} (P F : Disk X → Type 0) where
  pub call-Passes :
      (Q : Disk X → Type 0) (good : Bool) (change : Disk X → Disk X) (d : Disk X)
      → P d
      → F d
      → P (change d)
      → Q (change d)
      → Passes P F Q (call good change d)
  unfolding call
  call-Passes Q true change d p f p' q = record {
    on_the_way = (p', tt);
    at_error = λ h. absurd (ground arith);
    at_success = λ _. q;
  }
  call-Passes Q false change d p f p' q = record {
    on_the_way = (p, tt);
    at_error = λ _. f;
    at_success = λ h. absurd (ground arith);
  }

  pub and_then-Passes :
      (Q R : Disk X → Type 0) (r : Run X) (next : Disk X → Run X)
      → Passes P F Q r
      → ((d : Disk X) → Q d → Passes P F R (next d))
      → Passes P F R (and_then r next)
  unfolding and_then
  and_then-Passes Q R r next h k = elim (Bool-cases r.success) [
    | inl e ↦
        let l = k r.disk (h.at_success e) in
        rw e (record {
          on_the_way = All-append P r.trail (next r.disk).trail h.on_the_way l.on_the_way;
          at_error = l.at_error;
          at_success = l.at_success;
        })
    | inr e ↦ rw e (record {
      on_the_way = h.on_the_way;
      at_error = λ _. h.at_error e;
      at_success = λ f. absurd (ground arith);
    })
  ]

module _ {X : Type 0} (old : Disk X) (c : Calls X) (p : String) (new : File X) where
  -- Nothing but the temporary file has changed.
  abbrev pub Untouched : Disk X → Type 0
  Untouched d = (q : String) → q ≢ c.tmp → lookup q d ≡ lookup q old

  -- Each other file is as it was, or it is the target and holds all of the new contents, with the
  -- mode that was asked for, and flushed.
  abbrev pub IsWhole : Disk X → Type 0
  IsWhole d =
      (q : String) → q ≢ c.tmp → (lookup q d ≡ lookup q old) ⊎ ((q ≡ p) × (lookup q d ≡ some new))

  -- The new contents are at the target, and nothing else has changed.
  abbrev pub IsReplaced : Disk X → Type 0
  IsReplaced d =
      (lookup p d ≡ some new) × ((q : String) → q ≢ c.tmp → q ≢ p → lookup q d ≡ lookup q old)

  -- The temporary file holds what is to be moved.
  abbrev Holds : File X → Disk X → Type 0
  Holds f d = Untouched d × (lookup c.tmp d ≡ some f)

  whole : (d : Disk X) → Untouched d → IsWhole d
  whole d u q n = inl (u q n)

  Untouched-insert : (f : File X) (d : Disk X) → Untouched d → Untouched (insert c.tmp f d)
  Untouched-insert f d u q n = ground (arith, lookup-insert c.tmp q f d, eq_iff c.tmp q, u q n)

  Untouched-erase : (d : Disk X) → Untouched d → Untouched (erase c.tmp d)
  Untouched-erase d u q n = ground (arith, lookup-erase c.tmp q d, eq_iff c.tmp q, u q n)

  Holds-insert : (f : File X) (d : Disk X) → Untouched d → Holds f (insert c.tmp f d)
  Holds-insert f d u =
      (Untouched-insert f d u, ground (arith, lookup-insert c.tmp c.tmp f d, eq_iff c.tmp c.tmp))

  IsReplaced-move :
      (d : Disk X)
      → p ≢ c.tmp
      → Holds new d
      → IsReplaced (move c.tmp p d) × IsWhole (move c.tmp p d)
  unfolding move
  IsReplaced-move d apart (u, e) =
      let moved = λ (q : String). lookup-insert p q new (erase c.tmp d) in
      rw (e, move)
        (
          (
            ground (arith, moved p, eq_iff p p),
            λ q n m. ground (arith, moved q, eq_iff p q, Untouched-erase d u q n),
          ),
          λ q n. ground (arith, moved q, eq_iff p q, Untouched-erase d u q n),
        )

  module _ (contents : X) where
    write_contents-Holds :
        (d : Disk X)
        → Untouched d
        → Passes IsWhole Untouched
            (Holds (record { content = contents; perm = 384; synced = false }))
            (write_contents c contents d)
    unfolding write_contents
    write_contents-Holds d u =
        let part : File X = record { content = c.partial; perm = 384; synced = false } in
        let all : File X = record { content = contents; perm = 384; synced = false } in
        let put = λ (f : File X) (d' : Disk X) (u' : Untouched d').
          whole (insert c.tmp f d') (Untouched-insert f d' u') in
        and_then-Passes IsWhole Untouched Untouched (Holds all) _ _
          (call-Passes IsWhole Untouched Untouched true _ d (whole d u) u (put part d u)
            (Untouched-insert part d u))
          λ d' u'.
            call-Passes IsWhole Untouched (Holds all) c.write _ d' (whole d' u') u' (put all d' u')
              (Holds-insert all d' u')

  module _ (apart : p ≢ c.tmp) (flushed : new.synced ≡ true) where
    -- A call that changes nothing.
    same-Passes :
        (f : File X) (good : Bool) (d : Disk X)
        → Holds f d
        → Passes IsWhole Untouched (Holds f) (call good (λ d'. d') d)
    same-Passes f good d h =
        call-Passes IsWhole Untouched (Holds f) good (λ d'. d') d (whole d h.0) h.0 (whole d h.0) h

    flush-Passes :
        (d : Disk X)
        → Holds (record { content = new.content; perm = 384; synced = false }) d
        → Passes IsWhole Untouched
            (Holds (record { content = new.content; perm = 384; synced = true }))
            (call c.sync (flush c.tmp) d)
    unfolding flush
    flush-Passes d (u, h) =
        let done : File X = record { content = new.content; perm = 384; synced = true } in
        let changed : Holds done (flush c.tmp d) = rw (h, flush) (Holds-insert done d u) in
        call-Passes IsWhole Untouched (Holds done) c.sync _ d (whole d u) u (whole _ changed.0)
          changed

    set_perm-Passes :
        (d : Disk X)
        → Holds (record { content = new.content; perm = 384; synced = true }) d
        → Passes IsWhole Untouched (Holds new) (call c.chmod (set_perm c.tmp new.perm) d)
    unfolding set_perm
    set_perm-Passes d (u, h) =
        let changed : Holds new (set_perm c.tmp new.perm d) =
          rw (h, set_perm, sym flushed) (Holds-insert new d u) in
        call-Passes IsWhole Untouched (Holds new) c.chmod _ d (whole d u) u (whole _ changed.0)
          changed

    fill_and_move-Passes :
        (d : Disk X)
        → Untouched d
        → Passes IsWhole Untouched IsReplaced (fill_and_move c p new.content new.perm d)
    unfolding fill_and_move
    fill_and_move-Passes d u =
        let filled : File X = record { content = new.content; perm = 384; synced = true } in
        let written : File X = record { content = new.content; perm = 384; synced = false } in
        let step = and_then-Passes IsWhole Untouched in
        step (Holds written) IsReplaced _ _ (write_contents-Holds new.content d u) λ d1 h1.
          step (Holds filled) IsReplaced _ _ (flush-Passes d1 h1) λ d2 h2.
            step (Holds filled) IsReplaced _ _ (same-Passes filled c.close d2 h2) λ d3 h3.
              step (Holds new) IsReplaced _ _ (set_perm-Passes d3 h3) λ d4 h4.
                let moved = IsReplaced-move d4 apart h4 in
                call-Passes IsWhole Untouched IsReplaced c.rename (move c.tmp p) d4 (whole d4 h4.0)
                  h4.0 moved.1 moved.0

    clean_up-Passes :
        (r : Run X)
        → Passes IsWhole Untouched IsReplaced r
        → Passes IsWhole Untouched IsReplaced (clean_up c r)
    unfolding clean_up
    clean_up-Passes r h = elim (Bool-cases r.success) [
      | inl e ↦ rw e (record {
        on_the_way = h.on_the_way;
        at_error = λ f. absurd (ground arith);
        at_success = λ _. h.at_success e;
      })
      | inr e ↦
          let u : Untouched (if c.remove then erase c.tmp r.disk else r.disk) =
            elim (Bool-cases c.remove) [
              | inl b ↦ rw b (Untouched-erase r.disk (h.at_error e))
              | inr b ↦ rw b (h.at_error e)
            ] in
          rw e (record {
            on_the_way = All-append IsWhole r.trail _ h.on_the_way (whole _ u, tt);
            at_error = λ _. u;
            at_success = λ f. absurd (ground arith);
          })
    ]

    write_file_atomic-Passes :
        Passes IsWhole Untouched IsReplaced (write_file_atomic c p new.content new.perm old)
    unfolding write_file_atomic
    write_file_atomic-Passes =
        let empty : File X = record { content = c.nothing; perm = 384; synced = false } in
        let at_first : Untouched old = λ q n. refl in
        let step = and_then-Passes IsWhole Untouched in
        step Untouched IsReplaced _ _
          (call-Passes IsWhole Untouched Untouched c.mkdir (λ d. d) old (whole old at_first)
            at_first (whole old at_first) at_first)
          λ d1 u1.
            let u1' = Untouched-insert empty d1 u1 in
            step Untouched IsReplaced _ _
              (call-Passes IsWhole Untouched Untouched c.create (insert c.tmp empty) d1
                (whole d1 u1) u1 (whole _ u1') u1')
              λ d2 u2. clean_up-Passes _ (fill_and_move-Passes d2 u2)

-- If the name of the temporary file is not the target's, then after every call of the write, the disk
-- holds each file but the temporary one as it was, or, at the target, all of the new contents, flushed
-- by fsync, with the mode that was asked for. If the write returns an error, all files but the
-- temporary one are as they were; if it returns none, the target is replaced, and no other file but
-- the temporary one has changed.
pub write_file_atomic_safe :
    {X : Type 0} (c : Calls X) (p : String) (contents : X) (perm : ℕ) (old : Disk X)
    → p ≢ c.tmp
    → let new : File X = record { content = contents; perm = perm; synced = true } in
      Passes
        (IsWhole old c p new)
        (Untouched old c p new)
        (IsReplaced old c p new)
        (write_file_atomic c p contents perm old)
write_file_atomic_safe c p contents perm old apart =
    write_file_atomic-Passes old c p (record { content = contents; perm = perm; synced = true })
      apart refl
