-- ===== src/Mutual/Sealed.antt =====
-- A sealed text, opened.
use lifi_auth.Common.{
  ℕ, ◌+◌, ◌-◌, ◌%◌, ◌≡◌, refl, sym, ap, subst, ◌∙◌, arith, some, List, ◌∷◌, ◌++◌,
}
use lifi_auth.Common.{
  length, take, slice, replicate, take-append, slice-append, length-append, append_assoc, take_all,
}
use lifi_auth.Common.{All, IsByte, All-append, if_some, drop-append}
use lifi_auth.Crypto.{
  Mbedtls, IsLawful, sst_hmac_sha256_ex, sst_aes_128_cbc_decrypt, sst_aes_128_cbc_encrypt_pkcs7,
}
use lifi_auth.Crypto.Laws.{cbc_decrypt-encrypt}
use lifi_auth.Mutual.{IsSealed}

module _ (m : Mbedtls) where
  -- The wrappers look at so much of their keys only.
  pub cbc_decrypt-take :
      (key key' iv c : List ℕ)
      → take 16 key ≡ take 16 key'
      → sst_aes_128_cbc_decrypt m key iv c ≡ sst_aes_128_cbc_decrypt m key' iv c
  unfolding sst_aes_128_cbc_decrypt
  cbc_decrypt-take key key' iv c h = rw h refl

  pub cbc_encrypt-take :
      (key key' iv text : List ℕ)
      → take 16 key ≡ take 16 key'
      → sst_aes_128_cbc_encrypt_pkcs7 m key iv text ≡ sst_aes_128_cbc_encrypt_pkcs7 m key' iv text
  unfolding sst_aes_128_cbc_encrypt_pkcs7
  cbc_encrypt-take key key' iv text h = rw h refl

  pub hmac-take :
      (key key' text : List ℕ)
      → take 32 key ≡ take 32 key'
      → sst_hmac_sha256_ex m key 32 text ≡ sst_hmac_sha256_ex m key' 32 text
  unfolding sst_hmac_sha256_ex
  hmac-take key key' text h = rw h refl

  module _ (lawful : IsLawful m) where
    hmac-size :
        (key text mac : List ℕ)
        → sst_hmac_sha256_ex m key 32 text ≡ some mac
        → (length mac ≡ 32) × All IsByte mac
    unfolding sst_hmac_sha256_ex
    hmac-size key text mac h =
        let (_, made) = if_some m.has_sha256 _ mac h in lawful.hmac_size (take 32 key) text mac made

    encrypt-bytes :
        (key iv text c : List ℕ)
        → sst_aes_128_cbc_encrypt_pkcs7 m key iv text ≡ some c
        → All IsByte c
    unfolding sst_aes_128_cbc_encrypt_pkcs7
    encrypt-bytes key iv text c h =
        let (_, made) = if_some (m.aes_setkey (take 16 key)) _ c h in
        let (_, _, bytes) = lawful.cbc_inverse (take 16 key) (take 16 iv) _ c made in bytes

    -- The parts of a sealed text of `n` bytes, whose padding has `pad` bytes: the ciphertext has
    -- `n + pad`.
    pub record IsLaidOut (n pad : ℕ) (key text blob iv c mac : List ℕ) : Type 0 where
      pub opened : sst_aes_128_cbc_decrypt m key iv c ≡ some (text ++ replicate pad pad)
      pub covered : take (16 + (n + pad)) blob ≡ iv ++ c
      pub coded : slice (16 + (n + pad)) 32 blob ≡ mac
      pub front : take 16 blob ≡ iv
      pub cipher : slice 16 (n + pad) blob ≡ c
      pub size : length blob ≡ 48 + (n + pad)
      pub bytes : All IsByte blob

    pub lay_out :
        (n pad : ℕ) (key mac_key text blob : List ℕ)
        → length text ≡ n
        → 16 - n % 16 ≡ pad
        → (s : IsSealed m key mac_key text blob) → IsLaidOut n pad key text blob s.iv s.c s.mac
    lay_out n pad key mac_key text blob size rest s =
        let (back, whole, lo, hi) = cbc_decrypt-encrypt m lawful key s.iv text s.c s.made in
        let (mac_size, mac_bytes) = hmac-size mac_key (s.iv ++ s.c) s.mac s.code in
        let c_size : length s.c ≡ n + pad = omega (arith, whole, lo, hi, size, rest) in
        let pad_same : 16 - length text % 16 ≡ pad = omega (arith, size, rest) in
        let front_size : length (s.iv ++ s.c) ≡ 16 + (n + pad) =
          omega (arith, length-append s.iv s.c, s.iv_size, c_size) in
        let split : blob ≡ (s.iv ++ s.c) ++ s.mac = s.laid ∙ sym (append_assoc s.iv s.c s.mac) in
        record {
          opened =
              subst (λ k. sst_aes_128_cbc_decrypt m key s.iv s.c ≡ some (text ++ replicate k k))
                pad_same back;
          covered = rw split (take-append (16 + (n + pad)) (s.iv ++ s.c) s.mac front_size);
          coded =
              rw (split, drop-append (16 + (n + pad)) (s.iv ++ s.c) s.mac front_size)
                (take_all 32 s.mac mac_size);
          front = rw s.laid (take-append 16 s.iv (s.c ++ s.mac) s.iv_size);
          cipher = rw s.laid (slice-append 16 16 (n + pad) s.iv s.c s.mac refl s.iv_size c_size);
          size =
              ap length split
              ∙ length-append (s.iv ++ s.c) s.mac
              ∙ omega (arith, front_size, mac_size);
          bytes = subst (All IsByte) (sym s.laid) (
              All-append IsByte s.iv (s.c ++ s.mac) s.iv_bytes
                (All-append IsByte s.c s.mac (encrypt-bytes key s.iv text s.c s.made) mac_bytes));
        }

    -- A first message has 64 bytes behind the ID, a second or third has 80.
    pub sealed_first-size :
        (key mac_key nonce blob : List ℕ)
        → length nonce ≡ 8
        → IsSealed m key mac_key (1 ∷ nonce) blob
        → length blob ≡ 64
    sealed_first-size key mac_key nonce blob size s =
        let l : IsLaidOut 9 7 key (1 ∷ nonce) blob s.iv s.c s.mac =
          lay_out 9 7 key mac_key (1 ∷ nonce) blob (omega (arith, size)) refl s in
        l.size

    pub sealed_pair-size :
        (step : ℕ) (key mac_key first second blob : List ℕ)
        → length first ≡ 8
        → length second ≡ 8
        → IsSealed m key mac_key (step ∷ (first ++ second)) blob
        → (length blob ≡ 80) × All IsByte blob
    sealed_pair-size step key mac_key first second blob a b s =
        let l : IsLaidOut 17 15 key (step ∷ (first ++ second)) blob s.iv s.c s.mac =
          lay_out 17 15 key mac_key (step ∷ (first ++ second)) blob
            (omega (arith, length-append first second, a, b)) refl s in
        (l.size, l.bytes)
