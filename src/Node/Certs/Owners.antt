-- ===== src/Node/Certs/Owners.antt =====
-- claimCertFiles of node/cert_manager.go: a file belongs to one domain for the life of the process.
use yunzes_node.Base.{
  ◌≡◌, refl, sym, ◌∙◌, ◌⊎◌, inl, inr, String, some, List, [], ◌∷◌, ◌==◌, lookup, insert, string_eq,
  ok, err, arith, eq_iff, ==_refl, lookup-insert, Bool-cases, Result-cases, subst,
}
use yunzes_node.Node.Certs.{CertClaim, Claims, check_cert_owner, check_key_owner, claim_cert_files}

pub record Request : Type 0 where
  pub cert_file : String
  pub key_file : String
  pub domain : String

-- The table after a claim, refused or not.
unfoldable pub after : Claims → Request → Claims
after m r = elim (claim_cert_files m r.cert_file r.key_file r.domain) [ err _ ↦ m | ok m' ↦ m' ]

unfoldable pub after_all : Claims → List Request → Claims
after_all m [] = m
after_all m (r ∷ rs) = after_all (after m r) rs

abbrev pub OwnedBy : String → String → Claims → Type 0
OwnedBy domain file m = (c : CertClaim) × (lookup file m ≡ some c) × (c.domain ≡ domain)

-- The claim is for a file, as the certificate's or as the key's.
abbrev pub IsFor : String → Request → Type 0
IsFor file r = (file ≡ r.cert_file) ⊎ (file ≡ r.key_file)

module _ (m m' : Claims) (cert_file key_file domain : String)
    (claimed : claim_cert_files m cert_file key_file domain ≡ ok m') where
  claim : CertClaim
  claim = record { domain = domain; key_file = key_file }

  claimed_table :
      (m' ≡ insert key_file claim (insert cert_file claim m))
      × ((c : CertClaim) → lookup cert_file m ≡ some c → c.domain ≡ domain)
      × ((c : CertClaim) → lookup key_file m ≡ some c → c.domain ≡ domain)
  unfolding claim_cert_files check_cert_owner check_key_owner claim
  claimed_table = (
    ground (arith, claimed),
    λ c e. ground (arith, claimed, e, eq_iff c.domain domain),
    λ c e. ground (arith, claimed, e, eq_iff c.domain domain),
  )

  -- A claim that was granted is granted again.
  pub claim_again : (m'' : Claims) × (claim_cert_files m' cert_file key_file domain ≡ ok m'')
  unfolding claim_cert_files check_cert_owner check_key_owner claim
  claim_again =
      let key_entry = lookup-insert key_file key_file claim (insert cert_file claim m) in
      let cert_entry = lookup-insert key_file cert_file claim (insert cert_file claim m) in
      let cert_entry' = lookup-insert cert_file cert_file claim m in
      (
        insert key_file claim (insert cert_file claim m'),
        ground (
          arith,
          claimed_table.0,
          key_entry,
          cert_entry,
          cert_entry',
          eq_iff key_file cert_file,
          ==_refl cert_file,
          ==_refl key_file,
          ==_refl domain,
        ),
      )

  -- Each file of the claim is the domain's afterwards.
  OwnedBy-claimed :
      (file : String) → (file ≡ cert_file) ⊎ (file ≡ key_file) → OwnedBy domain file m'
  unfolding claim
  OwnedBy-claimed file of =
      let seen = lookup-insert key_file file claim (insert cert_file claim m) in
      let seen' = lookup-insert cert_file file claim m in
      (
        claim,
        ground
            (arith, claimed_table.0, seen, seen', of, eq_iff key_file file, eq_iff cert_file file),
        refl,
      )

  -- A file that had an owner keeps it.
  OwnedBy-kept : (file other : String) → OwnedBy other file m → OwnedBy other file m'
  OwnedBy-kept file other (c, e, f) =
      let (_, of_cert, of_key) = claimed_table in
      elim (Bool-cases (key_file == file)) [
        | inl h ↦
            let here : key_file ≡ file = (eq_iff key_file file).0 h in
            let same : c.domain ≡ domain = of_key c (rw here e) in
            subst (λ d. OwnedBy d file m') (sym same ∙ f) (OwnedBy-claimed file (inr (sym here)))
        | inr h ↦ elim (Bool-cases (cert_file == file)) [
          | inl k ↦
              let here : cert_file ≡ file = (eq_iff cert_file file).0 k in
              let same : c.domain ≡ domain = of_cert c (rw here e) in
              subst (λ d. OwnedBy d file m') (sym same ∙ f) (OwnedBy-claimed file (inl (sym here)))
          | inr k ↦
              let seen = lookup-insert key_file file claim (insert cert_file claim m) in
              let seen' = lookup-insert cert_file file claim m in
              (c, ground (arith, claimed_table.0, seen, seen', h, k, e), f)
        ]
      ]

OwnedBy-after :
    (file domain : String) (m : Claims) (r : Request)
    → OwnedBy domain file m
    → OwnedBy domain file (after m r)
unfolding after
OwnedBy-after file domain m r o =
    elim (Result-cases (claim_cert_files m r.cert_file r.key_file r.domain)) [
      | inl (_, e) ↦ rw (e, after) o
      | inr (m', e) ↦ rw (e, after) (OwnedBy-kept m m' _ _ _ e file domain o)
    ]

OwnedBy-after_all :
    (file domain : String) (m : Claims) (rs : List Request)
    → OwnedBy domain file m
    → OwnedBy domain file (after_all m rs)
unfolding after_all
OwnedBy-after_all file domain m [] o = o
OwnedBy-after_all file domain m (r ∷ rs) o =
    OwnedBy-after_all file domain (after m r) rs (OwnedBy-after file domain m r o)

-- A file that a claim has been granted for belongs to the claim's domain after any further claims:
-- if a later claim for the same file, as certificate or as key of either, is granted too, then both
-- claims are for the same domain.
pub granted_claims_agree :
    (m m1 m2 : Claims) (first : Request) (between : List Request) (second : Request) (file : String)
    → claim_cert_files m first.cert_file first.key_file first.domain ≡ ok m1
    → IsFor file first
    → claim_cert_files (after_all m1 between) second.cert_file second.key_file second.domain ≡ ok m2
    → IsFor file second
    → first.domain ≡ second.domain
granted_claims_agree m m1 m2 first between second file granted of granted' of' =
    let (c, e, f) =
      OwnedBy-after_all file first.domain m1 between (OwnedBy-claimed m m1 _ _ _ granted file of) in
    let (_, of_cert, of_key) =
      claimed_table (after_all m1 between) m2 second.cert_file second.key_file second.domain
        granted' in
    elim of' [
      | inl here ↦ sym f ∙ of_cert c (rw here at e)
      | inr here ↦ sym f ∙ of_key c (rw here at e)
    ]
