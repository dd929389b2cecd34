-- ===== src/Node/Certs/Issue/Torn.antt =====
-- What the two writes of a certificate and its key leave (node/lego.go, node/cert.go).
use yunzes_node.Base.{
  ℕ, ◌≡◌, ◌≢◌, sym, ◌∙◌, inl, inr, String, true, false, some, lookup, string_eq, arith, Bool-cases,
}
use yunzes_node.Node.Certs.Files.{Disk, Calls, and_then, write_file_atomic}
use yunzes_node.Node.Certs.Files.Atomic.{write_file_atomic_safe}
use yunzes_node.Node.Certs.Issue.{Writes, write_pair}

module _ {X : Type 0} where
  -- Files that a write does not name keep their contents.
  write_file_atomic-keeps :
      (c : Calls X) (p q : String) (contents : X) (perm : ℕ) (d : Disk X)
      → p ≢ c.tmp
      → q ≢ c.tmp
      → q ≢ p
      → lookup q (write_file_atomic c p contents perm d).disk ≡ lookup q d
  write_file_atomic-keeps c p q contents perm d apart n m =
      let safe = write_file_atomic_safe c p contents perm d apart in
      elim (Bool-cases (write_file_atomic c p contents perm d).success) [
        | inl e ↦ (safe.at_success e).1 q n m
        | inr e ↦ safe.at_error e q n
      ]

  -- The names are what os.CreateTemp gives: new ones.
  pub record AreApart (w : Writes X) (cert_path key_path : String) : Type 0 where
    pub paths : cert_path ≢ key_path
    pub cert_tmp : cert_path ≢ w.cert.tmp
    pub key_tmp : key_path ≢ w.key.tmp
    pub cert_other : cert_path ≢ w.key.tmp
    pub key_other : key_path ≢ w.cert.tmp

  module _ (w : Writes X) (cp kp : String) (cert key : X) (d : Disk X)
      (apart : AreApart w cp kp) where
    pub write_pair-keeps :
        (q : String)
        → q ≢ cp
        → q ≢ kp
        → q ≢ w.cert.tmp
        → q ≢ w.key.tmp
        → lookup q (write_pair w cp kp (cert, key) d).disk ≡ lookup q d
    unfolding write_pair and_then
    write_pair-keeps q a b e f =
        let first = write_file_atomic w.cert cp cert 420 d in
        let kept = write_file_atomic-keeps w.cert cp q cert 420 d apart.cert_tmp e a in
        let kept' = write_file_atomic-keeps w.key kp q key 384 first.disk apart.key_tmp f b in
        elim (Bool-cases first.success) [ inl s ↦ rw s (kept' ∙ kept) | inr s ↦ rw s kept ]

    pub write_pair-success :
        (write_pair w cp kp (cert, key) d).success ≡ true
        → lookup cp (write_pair w cp kp (cert, key) d).disk
          ≡ some (record { content = cert; perm = 420; synced = true })
    unfolding write_pair and_then
    write_pair-success h =
        let first = write_file_atomic w.cert cp cert 420 d in
        let safe = write_file_atomic_safe w.cert cp cert 420 d apart.cert_tmp in
        let kept =
          write_file_atomic-keeps w.key kp cp key 384 first.disk apart.key_tmp apart.cert_other
            apart.paths in
        elim (Bool-cases first.success) [
          | inl s ↦ rw s (kept ∙ (safe.at_success s).0)
          | inr s ↦ absurd (ground (arith, s, h))
        ]

    -- If the certificate is written and its key is not, the disk has the new certificate and the
    -- old key.
    pub write_pair-torn :
        (write_file_atomic w.cert cp cert 420 d).success ≡ true
        → (write_pair w cp kp (cert, key) d).success ≡ false
        → let d' = (write_pair w cp kp (cert, key) d).disk in
          (lookup cp d' ≡ some (record { content = cert; perm = 420; synced = true }))
          × (lookup kp d' ≡ lookup kp d)
    unfolding write_pair and_then
    write_pair-torn s h =
        let first = write_file_atomic w.cert cp cert 420 d in
        let safe = write_file_atomic_safe w.cert cp cert 420 d apart.cert_tmp in
        let safe' = write_file_atomic_safe w.key kp key 384 first.disk apart.key_tmp in
        let failed = (write_file_atomic w.key kp key 384 first.disk).success ≡ false in
        let bad : failed = ground (arith, s, h) in
        let (here, others) = safe.at_success s in
        rw s (
          safe'.at_error bad cp apart.cert_other ∙ here,
          safe'.at_error bad kp apart.key_tmp
              ∙ others kp apart.key_other (λ e. apart.paths (sym e)),
        )
