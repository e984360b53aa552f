-- ===== src/Crypto.antt =====
-- src/sst_crypto_embedded.c: the firmware's wrappers round mbedTLS, which is a parameter.
-- A return value other than 0 is `none`.
pub mod Laws
use lifi_auth.Common.{ℕ, ◌+◌, ◌-◌, ◌*◌, ◌%◌, ◌≡◌, Bool, true, Option, some, none, List, ◌++◌}
use lifi_auth.Common.{length, replicate, take, if◌then◌else◌, All, IsByte}

-- The calls of mbedTLS, each with the key that its context was set up with.
pub record Mbedtls : Type 0 where
  pub has_sha256 : Bool
  pub md_hmac : List ℕ → List ℕ → Option (List ℕ)
  pub sha256 : List ℕ → List ℕ
  pub aes_setkey : List ℕ → Bool
  pub cbc_encrypt : List ℕ → List ℕ → List ℕ → Option (List ℕ)
  pub cbc_decrypt : List ℕ → List ℕ → List ℕ → Option (List ℕ)
  pub gcm_setkey : List ℕ → Bool
  pub gcm_crypt_and_tag : List ℕ → List ℕ → List ℕ → Option (List ℕ × List ℕ)
  pub gcm_auth_decrypt : List ℕ → List ℕ → List ℕ → List ℕ → Option (List ℕ)

-- What the sources rely on: the sizes of digests and tags, and that decryption with the same
-- key and nonce undoes encryption.
pub record IsLawful (m : Mbedtls) : Type 0 where
  pub sha256_size : (t : List ℕ) → (length (m.sha256 t) ≡ 32) × All IsByte (m.sha256 t)
  pub hmac_size : (k t d : List ℕ) → m.md_hmac k t ≡ some d → (length d ≡ 32) × All IsByte d
  pub cbc_inverse :
      (k iv t c : List ℕ)
      → m.cbc_encrypt k iv t ≡ some c
      → (m.cbc_decrypt k iv c ≡ some t) × (length c ≡ length t) × All IsByte c
  pub gcm_inverse :
      (k n t c g : List ℕ)
      → m.gcm_crypt_and_tag k n t ≡ some (c, g)
      → (m.gcm_auth_decrypt k n c g ≡ some t)
        × (length c ≡ length t)
        × (length g ≡ 16)
        × All IsByte c
        × All IsByte g

abbrev pub sst_key_size : ℕ
sst_key_size = 16

abbrev pub sst_key_id_size : ℕ
sst_key_id_size = 8

module _ (m : Mbedtls) where
  unfoldable pub sst_hmac_sha256_ex : List ℕ → ℕ → List ℕ → Option (List ℕ)
  sst_hmac_sha256_ex key key_len input =
      if m.has_sha256 then m.md_hmac (take key_len key) input else none

  unfoldable pub sst_hmac_sha256 : List ℕ → List ℕ → Option (List ℕ)
  sst_hmac_sha256 key input = if m.has_sha256 then m.md_hmac (take sst_key_size key) input else none

  unfoldable pub sst_aes_128_cbc_decrypt : List ℕ → List ℕ → List ℕ → Option (List ℕ)
  sst_aes_128_cbc_decrypt key iv input =
      if m.aes_setkey (take 16 key) then m.cbc_decrypt (take 16 key) (take 16 iv) input else none

  -- The output's length is `*output_len`.
  unfoldable pub sst_aes_128_cbc_encrypt_pkcs7 : List ℕ → List ℕ → List ℕ → Option (List ℕ)
  sst_aes_128_cbc_encrypt_pkcs7 key iv input =
      let pad = 16 - length input % 16 in
      let padded = input ++ replicate pad pad in
      if m.aes_setkey (take 16 key) then m.cbc_encrypt (take 16 key) (take 16 iv) padded else none

  unfoldable pub sst_encrypt_gcm : List ℕ → List ℕ → List ℕ → Option (List ℕ × List ℕ)
  sst_encrypt_gcm key nonce input =
      if m.gcm_setkey (take 16 key)
      then m.gcm_crypt_and_tag (take 16 key) (take 12 nonce) input
      else none

  unfoldable pub sst_decrypt_gcm : List ℕ → List ℕ → List ℕ → List ℕ → Option (List ℕ)
  sst_decrypt_gcm key nonce ciphertext tag =
      if m.gcm_setkey (take 16 key)
      then m.gcm_auth_decrypt (take 16 key) (take 12 nonce) ciphertext (take 16 tag)
      else none
