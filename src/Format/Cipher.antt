-- ===== src/Format/Cipher.antt =====
-- The check of Shadowsocks settings, common/format/sscipher.go. Base64 decoding is a parameter, by the
-- length of what it decodes to.
use yunzes_node.Base.{
  ℕ, ◌≡◌, ◌↔◌, ◌⊎◌, refl, inl, inr, String, Bool, true, false, not, ◌||◌, Option, none, some, List,
  [], ◌∷◌, any, ltb, ◌==◌, nat_eq, string_eq, if◌then◌else◌, Result, ok, err, arith, Bool-cases,
  Option-cases, eq_iff, subst, sym,
}

abbrev shadowsocks_allowed_ciphers : List String
shadowsocks_allowed_ciphers =
    "aes-128-gcm" ∷ "aes-256-gcm" ∷ "chacha20-ietf-poly1305" ∷ "2022-blake3-aes-128-gcm"
    ∷ "2022-blake3-aes-256-gcm" ∷ "2022-blake3-chacha20-poly1305" ∷ []

unfoldable pub shadowsocks2022_key_len : String → ℕ
shadowsocks2022_key_len cipher =
    if cipher == "2022-blake3-aes-128-gcm"
    then 16
    else if cipher == "2022-blake3-aes-256-gcm" || cipher == "2022-blake3-chacha20-poly1305"
    then 32
    else 0

pub data CipherError : Type 0 where
  empty_cipher : CipherError
  not_allowed : String → CipherError
  empty_key : CipherError
  not_base64 : CipherError
  wrong_length : ℕ → ℕ → CipherError

module _ (decoded_length : String → Option ℕ) where
  unfoldable pub check_key : ℕ → String → Result CipherError (Unit {0})
  check_key want server_key =
      if server_key == "" then err empty_key else elim (decoded_length server_key) [
        | none ↦ err not_base64
        | some n ↦ if not (n == want) then err (wrong_length want n) else ok tt
      ]

  unfoldable pub validate_shadowsocks_cipher : String → String → Result CipherError (Unit {0})
  validate_shadowsocks_cipher cipher server_key =
      if cipher == ""
      then err empty_cipher
      else if not (any (λ c. c == cipher) shadowsocks_allowed_ciphers)
      then err (not_allowed cipher)
      else if ltb 0 (shadowsocks2022_key_len cipher)
      then check_key (shadowsocks2022_key_len cipher) server_key
      else ok tt

abbrev pub is_2022 : String → Bool
is_2022 cipher =
    cipher == "2022-blake3-aes-128-gcm"
    || cipher == "2022-blake3-aes-256-gcm"
    || cipher == "2022-blake3-chacha20-poly1305"

abbrev pub is_classic : String → Bool
is_classic cipher =
    cipher == "aes-128-gcm" || cipher == "aes-256-gcm" || cipher == "chacha20-ietf-poly1305"

abbrev key_length : String → ℕ
key_length cipher = if cipher == "2022-blake3-aes-128-gcm" then 16 else 32

same_test : (a b : String) → (a == b) ≡ (b == a)
same_test a b = ground (arith, eq_iff a b, eq_iff b a)

allowed_lem :
    (cipher : String)
    → any (λ c. c == cipher) shadowsocks_allowed_ciphers ≡ (is_classic cipher || is_2022 cipher)
allowed_lem cipher = ground (
  arith,
  same_test "aes-128-gcm" cipher,
  same_test "aes-256-gcm" cipher,
  same_test "chacha20-ietf-poly1305" cipher,
  same_test "2022-blake3-aes-128-gcm" cipher,
  same_test "2022-blake3-aes-256-gcm" cipher,
  same_test "2022-blake3-chacha20-poly1305" cipher,
)

-- What holds of a literal holds of a text that equals it.
at_literal :
    (P : String → Type 0) (cipher literal : String)
    → (cipher == literal) ≡ true
    → P literal
    → P cipher
at_literal P cipher literal h p = subst P (sym ((eq_iff cipher literal).0 h)) p

key_len_2022 :
    (cipher : String)
    → is_2022 cipher ≡ true
    → (shadowsocks2022_key_len cipher ≡ key_length cipher) × ((cipher == "") ≡ false)
unfolding shadowsocks2022_key_len
key_len_2022 cipher h =
    let P = λ (c : String). (shadowsocks2022_key_len c ≡ key_length c) × ((c == "") ≡ false) in
    elim (Bool-cases (cipher == "2022-blake3-aes-128-gcm")) [
      | inl e ↦ at_literal P cipher _ e (refl, refl)
      | inr e ↦ elim (Bool-cases (cipher == "2022-blake3-aes-256-gcm")) [
        | inl f ↦ at_literal P cipher _ f (refl, refl)
        | inr f ↦
            at_literal P cipher "2022-blake3-chacha20-poly1305" (ground (arith, e, f, h))
              (refl, refl)
      ]
    ]

key_len_classic :
    (cipher : String)
    → is_classic cipher ≡ true
    → (shadowsocks2022_key_len cipher ≡ 0) × ((cipher == "") ≡ false) × (is_2022 cipher ≡ false)
unfolding shadowsocks2022_key_len
key_len_classic cipher h =
    let P =
      λ (c : String). (shadowsocks2022_key_len c ≡ 0) × ((c == "") ≡ false) × (is_2022 c ≡ false) in
    elim (Bool-cases (cipher == "aes-128-gcm")) [
      | inl e ↦ at_literal P cipher _ e (refl, refl, refl)
      | inr e ↦ elim (Bool-cases (cipher == "aes-256-gcm")) [
        | inl f ↦ at_literal P cipher _ f (refl, refl, refl)
        | inr f ↦
            at_literal P cipher "chacha20-ietf-poly1305" (ground (arith, e, f, h))
              (refl, refl, refl)
      ]
    ]

-- A key for one of the ciphers of 2022.
abbrev pub HasKey : (String → Option ℕ) → String → String → Type 0
HasKey decoded_length cipher server_key =
    ((server_key == "") ≡ false) × (decoded_length server_key ≡ some (key_length cipher))

key_length_pos : (cipher : String) → ltb 0 (key_length cipher) ≡ true
key_length_pos cipher = ground arith

check_key_iff :
    (decoded_length : String → Option ℕ) (cipher server_key : String)
    → (check_key decoded_length (key_length cipher) server_key ≡ ok tt)
      ↔ HasKey decoded_length cipher server_key
unfolding check_key
check_key_iff decoded_length cipher server_key = elim (Option-cases (decoded_length server_key)) [
  | inl e ↦ (λ h. absurd (ground (arith, e, h)), λ k. absurd (ground (arith, e, k.1)))
  | inr (n, e) ↦
      (λ h. (ground (arith, e, h), ground (arith, e, h)), λ k. ground (arith, e, k.0, k.1))
]

-- The setting is accepted exactly if the cipher is one of the three classic ones, or one of the three
-- of 2022 with a key that is not empty and decodes to its length: 16 bytes for the first, 32 for the
-- others.
pub validate_shadowsocks_cipher_iff :
    (decoded_length : String → Option ℕ) (cipher server_key : String)
    → (validate_shadowsocks_cipher decoded_length cipher server_key ≡ ok tt) ↔ (
        (is_classic cipher ≡ true)
        ⊎ ((is_2022 cipher ≡ true) × HasKey decoded_length cipher server_key))
unfolding validate_shadowsocks_cipher
validate_shadowsocks_cipher_iff decoded_length cipher server_key =
    elim (Bool-cases (is_classic cipher)) [
      | inl e ↦
          let (none_needed, named, _) = key_len_classic cipher e in
          (λ h. inl e, λ k. rw (named, allowed_lem cipher, e, none_needed) refl)
      | inr e ↦ elim (Bool-cases (is_2022 cipher)) [
        | inl f ↦
            let (size, named) = key_len_2022 cipher f in
            let key = check_key_iff decoded_length cipher server_key in
            rw (named, allowed_lem cipher, e, f, size, key_length_pos cipher)
              (
                λ h. inr (refl, key.0 h),
                λ k. elim k [
                  | inl wrong ↦ absurd (ground (arith, wrong))
                  | inr (_, held) ↦ key.1 held
                ],
              )
        | inr f ↦ (
          λ h. elim (Bool-cases (cipher == "")) [
            | inl g ↦ absurd (ground (arith, g, h))
            | inr g ↦ absurd (ground (arith, g, allowed_lem cipher, e, f, h))
          ],
          λ k. absurd (ground (arith, e, f, k)),
        )
      ]
    ]
