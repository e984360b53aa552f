-- ===== src/Handshake/Auth.antt =====
-- When the sender takes the host for authenticated.
use lifi_auth.Common.{ℕ, ◌≡◌, Bool, some, List, take, slice, get_or}
use lifi_auth.Crypto.{Mbedtls, sst_hmac_sha256_ex, sst_aes_128_cbc_decrypt}
use lifi_auth.Pico.{Pico}

module _ (m : Mbedtls) where
  -- The payload's code is that of its first 48 bytes under the MAC key, and they decrypt under
  -- the cipher key to a text of step 3 that echoes the nonce.
  pub record IsAuthentic (mac_key key nonce hs3 : List ℕ) : Type 0 where
    pub plain : List ℕ
    pub code : sst_hmac_sha256_ex m mac_key 32 (take 48 hs3) ≡ some (slice 48 32 hs3)
    pub opened : sst_aes_128_cbc_decrypt m key (take 16 hs3) (slice 16 32 hs3) ≡ some plain
    pub step : get_or plain 0 0 ≡ 3
    pub echo : slice 9 8 plain ≡ nonce
