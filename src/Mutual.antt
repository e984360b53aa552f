-- ===== src/Mutual.antt =====
-- The handshake between receiver/src/dash_receiver.c, whose messages are made and checked by the
-- library SST, and sender/src/lifi_session_sender.c, which makes and checks its own.
pub mod Sealed
pub mod Sender
pub mod Receiver
pub mod Agree
use lifi_auth.Common.{
  ℕ, ◌+◌, ◌≡◌, Bool, true, Option, some, List, ◌∷◌, ◌++◌, length, take, All, IsByte,
}
use lifi_auth.Crypto.{Mbedtls, sst_hmac_sha256_ex, sst_aes_128_cbc_encrypt_pkcs7}
use lifi_auth.Flash.Device.{FlashDevice}
use lifi_auth.Host.{SessionKey, Sst}
use lifi_auth.Pico.{Pico}

module _ (m : Mbedtls) where
  -- A text in the form that the messages have: an IV, the ciphertext of the padded text under the
  -- cipher key, and a code over both under the MAC key.
  pub record IsSealed (key mac_key text blob : List ℕ) : Type 0 where
    pub iv : List ℕ
    pub c : List ℕ
    pub mac : List ℕ
    pub iv_size : length iv ≡ 16
    pub iv_bytes : All IsByte iv
    pub made : sst_aes_128_cbc_encrypt_pkcs7 m key iv text ≡ some c
    pub code : sst_hmac_sha256_ex m mac_key 32 (iv ++ c) ≡ some mac
    pub laid : blob ≡ iv ++ (c ++ mac)

  -- What the sources say of SST: a first message is the key's ID and a sealed text of step 1 with
  -- the nonce that comes with it; a sealed text of step 2 that ends in that nonce is answered by
  -- a sealed text of step 3 with both nonces.
  pub record IsSstLawful (sst : Sst) : Type 0 where
    pub first :
        (n : ℕ) (k : SessionKey) (nonce hs1 : List ℕ)
        → sst.parse_handshake_1 n k ≡ some (nonce, hs1)
        → (length nonce ≡ 8)
          × All IsByte nonce
          × ((blob : List ℕ) × (hs1 ≡ take 8 k.key_id ++ blob)
              × IsSealed k.cipher_key k.mac_key (1 ∷ nonce) blob)
    pub third :
        (n : ℕ) (k : SessionKey) (pico_nonce nonce hs2 : List ℕ)
        → length pico_nonce ≡ 8
        → length nonce ≡ 8
        → IsSealed k.cipher_key k.mac_key (2 ∷ (pico_nonce ++ nonce)) hs2
        → (hs3 : List ℕ) × (sst.check_handshake_2_send_handshake_3 n hs2 nonce k ≡ some hs3)
          × IsSealed k.cipher_key k.mac_key (3 ∷ (nonce ++ pico_nonce)) hs3

  -- The calls that seal do not fail on bytes.
  pub record IsWorking : Type 0 where
    pub encrypts :
        (key iv text : List ℕ)
        → All IsByte text
        → (c : List ℕ) × (sst_aes_128_cbc_encrypt_pkcs7 m key iv text ≡ some c)
    pub codes : (key text : List ℕ) → (mac : List ℕ) × (sst_hmac_sha256_ex m key 32 text ≡ some mac)

-- The two sides have the same key, as far as they use it.
pub record IsSameKey (k : SessionKey) (session_key_id session_key session_mac_key : List ℕ)
    : Type 0 where
  pub id : session_key_id ≡ take 8 k.key_id
  pub id_size : length session_key_id ≡ 8
  pub cipher : take 16 session_key ≡ take 16 k.cipher_key
  pub mac : take 32 session_mac_key ≡ take 32 k.mac_key

abbrev pub IsShared : (d : FlashDevice) → SessionKey → Pico d → Type 0
IsShared d k p = IsSameKey k p.session_key_id p.session_key p.session_mac_key
