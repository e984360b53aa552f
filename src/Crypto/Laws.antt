-- ===== src/Crypto/Laws.antt =====
-- The wrappers undo one another, and the padding fills whole blocks.
use lifi_auth.Common.{ℕ, ◌+◌, ◌-◌, ◌%◌, ◌≡◌, ◌≤◌, arith, some}
use lifi_auth.Common.{
  List, ◌++◌, length, replicate, take, take_all, length-append, length-replicate,
}
use lifi_auth.Common.{◌∙◌, ap, if_some, All, IsByte, refl}
use lifi_auth.Crypto.{Mbedtls, IsLawful, sst_aes_128_cbc_encrypt_pkcs7}
use lifi_auth.Crypto.{sst_aes_128_cbc_decrypt, sst_encrypt_gcm, sst_decrypt_gcm}

module _ (m : Mbedtls) (lawful : IsLawful m) where
  -- A successful CBC encryption has a whole number of blocks, one more than the input fills, and
  -- decrypting it gives the input with its PKCS#7 padding: 1 to 16 bytes, each their number.
  pub cbc_decrypt-encrypt :
      (key iv input c : List ℕ)
      → sst_aes_128_cbc_encrypt_pkcs7 m key iv input ≡ some c
      → (sst_aes_128_cbc_decrypt m key iv c
          ≡ some (input ++ replicate (16 - length input % 16) (16 - length input % 16)))
        × (length c % 16 ≡ 0)
        × (length input + 1 ≤ length c)
        × (length c ≤ length input + 16)
  unfolding sst_aes_128_cbc_encrypt_pkcs7 sst_aes_128_cbc_decrypt
  cbc_decrypt-encrypt key iv input c h =
      let pad : ℕ = 16 - length input % 16 in
      let (good, made) = if_some (m.aes_setkey (take 16 key)) _ c h in
      let (back, same, _) = lawful.cbc_inverse (take 16 key) (take 16 iv) _ c made in
      let size : length c ≡ length input + pad =
        same
        ∙ length-append input (replicate pad pad)
        ∙ ap (λ t. length input + t) (length-replicate pad pad) in
      (rw good back, omega (arith, size), omega (arith, size), omega (arith, size))

  -- What `sst_encrypt_gcm` makes of a plaintext, `sst_decrypt_gcm` opens with the same key and
  -- nonce; the ciphertext is as long as the plaintext, and the tag has 16 bytes.
  pub gcm_decrypt-encrypt :
      (key nonce input c g : List ℕ)
      → sst_encrypt_gcm m key nonce input ≡ some (c, g)
      → (sst_decrypt_gcm m key nonce c g ≡ some input) × (length c ≡ length input) × (length g ≡ 16)
  unfolding sst_encrypt_gcm sst_decrypt_gcm
  gcm_decrypt-encrypt key nonce input c g h =
      let (good, made) = if_some (m.gcm_setkey (take 16 key)) _ (c, g) h in
      let (back, same, tag, _, _) =
        lawful.gcm_inverse (take 16 key) (take 12 nonce) input c g made in
      (rw (good, take_all 16 g tag) back, same, tag)

  -- Ciphertext and tag are bytes, and opening looks at the first 16 bytes of the key only.
  pub gcm_encrypt-bytes :
      (key nonce input c g : List ℕ)
      → sst_encrypt_gcm m key nonce input ≡ some (c, g)
      → All IsByte c × All IsByte g
  unfolding sst_encrypt_gcm
  gcm_encrypt-bytes key nonce input c g h =
      let (good, made) = if_some (m.gcm_setkey (take 16 key)) _ (c, g) h in
      let (_, _, _, text, tag) = lawful.gcm_inverse (take 16 key) (take 12 nonce) input c g made in
      (text, tag)

  pub gcm_decrypt-take :
      (key key' nonce c g : List ℕ)
      → take 16 key ≡ take 16 key'
      → sst_decrypt_gcm m key nonce c g ≡ sst_decrypt_gcm m key' nonce c g
  unfolding sst_decrypt_gcm
  gcm_decrypt-take key key' nonce c g h = rw h refl
