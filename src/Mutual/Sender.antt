-- ===== src/Mutual/Sender.antt =====
-- The sender's two steps of the handshake, on messages of a host with the same key.
use lifi_auth.Common.{ℕ, zero, suc, ◌+◌, ◌≡◌, refl, sym, ap, ◌∙◌, arith, true}
use lifi_auth.Common.{
  some, List, [], ◌∷◌, ◌++◌, length, take, slice, replicate, get_or, zeros, be16, le32,
}
use lifi_auth.Common.{
  take-append, drop-append, slice-append, length-append, append_assoc, All, IsByte, All-append,
}
use lifi_auth.Common.{bytes_eq, bytes_eq_refl}
use lifi_auth.Crc.{crc16_ccitt}
use lifi_auth.Crypto.{Mbedtls, IsLawful, sst_hmac_sha256_ex, sst_aes_128_cbc_decrypt}
use lifi_auth.Flash.Device.{FlashDevice}
use lifi_auth.Handshake.{mac_ok, check_hs1, send_hs2, check_hs3}
use lifi_auth.Host.{SessionKey}
use lifi_auth.Mutual.{IsSealed, IsWorking, IsShared}
use lifi_auth.Mutual.Sealed.{cbc_decrypt-take, cbc_encrypt-take, hmac-take, IsLaidOut, lay_out}
use lifi_auth.Pico.{Env, Pico}
use lifi_auth.Sender.{lifi_send_bytes, send_preamble}
use lifi_auth.Sender.Laws.{frame, sent, send_bytes-sent, send_bytes-append}

get_or-append_past :
    (t n j : ℕ) (xs ys : List ℕ) → t ≡ n + j → length xs ≡ n → get_or (xs ++ ys) t 0 ≡ get_or ys j 0
get_or-append_past t zero j [] ys e h = ap (λ i. get_or ys i 0) (omega arith)
get_or-append_past t zero j (x ∷ xs) ys e h = absurd (omega arith)
get_or-append_past t (suc n) j [] ys e h = absurd (omega arith)
get_or-append_past zero (suc n) j (x ∷ xs) ys e h = absurd (omega arith)
get_or-append_past (suc t) (suc n) j (x ∷ xs) ys e h =
    get_or-append_past t n j xs ys (omega arith) (omega arith)

module _ (d : FlashDevice) (m : Mbedtls) (e : Env) where
  mac_ok-shared :
      (key key' covered mac : List ℕ)
      → take 32 key ≡ take 32 key'
      → sst_hmac_sha256_ex m key' 32 covered ≡ some mac
      → mac_ok d m e key covered mac ≡ true
  unfolding mac_ok
  mac_ok-shared key key' covered mac same code =
      rw (mac_ok, hmac-take m key key' covered same, code) (bytes_eq_refl mac)

  module _ (lawful : IsLawful m) (k : SessionKey) where
    -- Step 1 from a host with the same key is answered, with the host's nonce.
    pub check_hs1-sealed :
        (nonce blob : List ℕ) (p : Pico d)
        → IsShared d k p
        → length nonce ≡ 8
        → IsSealed m k.cipher_key k.mac_key (1 ∷ nonce) blob
        → check_hs1 d m e (take 8 k.key_id ++ blob) p ≡ send_hs2 d m e nonce p
    unfolding check_hs1
    check_hs1-sealed nonce blob p shared size s =
        let l : IsLaidOut m lawful 9 7 k.cipher_key (1 ∷ nonce) blob s.iv s.c s.mac =
          lay_out m lawful 9 7 k.cipher_key k.mac_key (1 ∷ nonce) blob (omega (arith, size)) refl
            s in
        let id_size : length (take 8 k.key_id) ≡ 8 = ap length (sym shared.id) ∙ shared.id_size in
        let id_same : bytes_eq (take 8 k.key_id) p.session_key_id ≡ true =
          rw shared.id (bytes_eq_refl (take 8 k.key_id)) in
        let good : mac_ok d m e p.session_mac_key (s.iv ++ s.c) s.mac ≡ true =
          mac_ok-shared p.session_mac_key k.mac_key (s.iv ++ s.c) s.mac shared.mac s.code in
        let opened : sst_aes_128_cbc_decrypt m p.session_key s.iv s.c
            ≡ some ((1 ∷ nonce) ++ replicate 7 7) =
          cbc_decrypt-take m p.session_key k.cipher_key s.iv s.c shared.cipher ∙ l.opened in
        let pad : get_or ((1 ∷ nonce) ++ replicate 7 7) 15 0 ≡ 7 =
          get_or-append_past 15 9 6 (1 ∷ nonce) (replicate 7 7) refl (omega (arith, size)) in
        let echo : slice 1 8 ((1 ∷ nonce) ++ replicate 7 7) ≡ nonce = take-append 8 nonce _ size in
        rw
          (
            take-append 8 (take 8 k.key_id) blob id_size,
            drop-append 8 (take 8 k.key_id) blob id_size,
            check_hs1,
            l.covered,
            l.coded,
            l.front,
            l.cipher,
            id_same,
            good,
            opened,
            pad,
            echo,
          )
          refl

    -- Step 3 from a host with the same key that echoes the nonce lights the LED.
    pub check_hs3-sealed :
        (nonce blob : List ℕ) (p : Pico d)
        → IsShared d k p
        → length nonce ≡ 8
        → length p.saved_pico_nonce ≡ 8
        → IsSealed m k.cipher_key k.mac_key (3 ∷ (nonce ++ p.saved_pico_nonce)) blob
        → check_hs3 d m e blob p ≡ record p { saved_pico_nonce = zeros 8; auth_led = true }
    unfolding check_hs3
    check_hs3-sealed nonce blob p shared size saved_size s =
        let text : List ℕ = 3 ∷ (nonce ++ p.saved_pico_nonce) in
        let text_size : length text ≡ 17 =
          omega (arith, length-append nonce p.saved_pico_nonce, size, saved_size) in
        let l : IsLaidOut m lawful 17 15 k.cipher_key text blob s.iv s.c s.mac =
          lay_out m lawful 17 15 k.cipher_key k.mac_key text blob text_size refl s in
        let good : mac_ok d m e p.session_mac_key (s.iv ++ s.c) s.mac ≡ true =
          mac_ok-shared p.session_mac_key k.mac_key (s.iv ++ s.c) s.mac shared.mac s.code in
        let opened : sst_aes_128_cbc_decrypt m p.session_key s.iv s.c
            ≡ some (text ++ replicate 15 15) =
          cbc_decrypt-take m p.session_key k.cipher_key s.iv s.c shared.cipher ∙ l.opened in
        let pad : get_or (text ++ replicate 15 15) 31 0 ≡ 15 =
          get_or-append_past 31 17 14 text (replicate 15 15) refl text_size in
        let echo : slice 9 8 (text ++ replicate 15 15) ≡ p.saved_pico_nonce =
          ap (slice 8 8) (append_assoc nonce p.saved_pico_nonce (replicate 15 15))
          ∙ slice-append 8 8 8 nonce p.saved_pico_nonce (replicate 15 15) refl size saved_size in
        rw
          (
            check_hs3,
            l.covered,
            l.coded,
            l.front,
            l.cipher,
            good,
            opened,
            pad,
            echo,
            bytes_eq_refl p.saved_pico_nonce,
          )
          refl

    -- The answer of the sender, which it remembers its nonce of.
    abbrev pub answered : List ℕ → List ℕ → Pico d → Pico d
    answered pico_nonce blob p = record p {
      words = p.words + 6;
      lifi = p.lifi ++ frame 0x09 blob;
      saved_pico_nonce = pico_nonce;
    }

    -- Step 2: if nothing fails, both nonces are sealed, framed and sent.
    pub send_hs2-answered :
        (nonce : List ℕ) (p : Pico d)
        → IsWorking m
        → IsShared d k p
        → length nonce ≡ 8
        → All IsByte nonce
        → (pico_nonce : List ℕ) × (length pico_nonce ≡ 8)
          × (blob : List ℕ) × IsSealed m k.cipher_key k.mac_key (2 ∷ (pico_nonce ++ nonce)) blob
          × (send_hs2 d m e nonce p ≡ answered pico_nonce blob p)
    unfolding send_hs2 send_preamble lifi_send_bytes
    send_hs2-answered nonce p working shared size bytes =
        let pico_nonce : List ℕ = le32 (e.rand_32 p.words) ++ le32 (e.rand_32 (p.words + 1)) in
        let iv2 : List ℕ =
          le32 (e.rand_32 (p.words + 2))
          ++ (le32 (e.rand_32 (p.words + 3))
              ++ (le32 (e.rand_32 (p.words + 4)) ++ le32 (e.rand_32 (p.words + 5)))) in
        let text : List ℕ = 2 ∷ (pico_nonce ++ nonce) in
        let text_bytes : All IsByte text =
          (omega arith, All-append IsByte pico_nonce nonce (omega arith) bytes) in
        let (c, made) = working.encrypts p.session_key iv2 text text_bytes in
        let (mac, code) = working.codes p.session_mac_key (iv2 ++ c) in
        let blob : List ℕ = iv2 ++ (c ++ mac) in
        let sealed : IsSealed m k.cipher_key k.mac_key text blob = record {
          iv = iv2;
          c = c;
          mac = mac;
          iv_size = refl;
          iv_bytes = omega arith;
          made = sym (cbc_encrypt-take m p.session_key k.cipher_key iv2 text shared.cipher) ∙ made;
          code = sym (hmac-take m p.session_mac_key k.mac_key (iv2 ++ c) shared.mac) ∙ code;
          laid = refl;
        } in
        let l : IsLaidOut m lawful 17 15 k.cipher_key text blob iv2 c mac =
          lay_out m lawful 17 15 k.cipher_key k.mac_key text blob (omega (arith, size)) refl
            sealed in
        let drawn : Pico d = record p { words = p.words + 6 } in
        let head : List ℕ = 0xAB ∷ 0xCD ∷ 0xEF ∷ 0x12 ∷ 0x09 ∷ be16 80 in
        let crc : List ℕ = be16 (crc16_ccitt (0x09 ∷ (be16 80 ++ blob))) in
        let whole : lifi_send_bytes crc (lifi_send_bytes blob (lifi_send_bytes head drawn))
            ≡ sent (head ++ (blob ++ crc)) drawn =
          ap (lifi_send_bytes crc) (send_bytes-append head blob drawn)
          ∙ send_bytes-append (head ++ blob) crc drawn
          ∙ send_bytes-sent (head ++ (blob ++ crc)) drawn in
        (
          pico_nonce,
          refl,
          blob,
          sealed,
          rw (made, code, send_hs2, l.size)
              (ap (λ (q : Pico d). record q { saved_pico_nonce = pico_nonce }) whole),
        )
