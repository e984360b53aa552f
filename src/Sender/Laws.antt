-- ===== src/Sender/Laws.antt =====
-- What is sent, as one list of bytes.
use lifi_auth.Common.{
  ℕ, zero, suc, ◌+◌, ◌≤◌, ◌≡◌, refl, sym, ap, ◌∙◌, arith, List, [], ◌∷◌, ◌++◌, length,
}
use lifi_auth.Common.{
  take, drop, be16, take-drop, length-drop, length-append, take_all, append-nil, append_assoc,
}
use lifi_auth.Crc.{crc16_ccitt}
use lifi_auth.Common.{some, false, ltb}
use lifi_auth.Crypto.{Mbedtls, IsLawful, sst_encrypt_gcm}
use lifi_auth.Crypto.Laws.{gcm_decrypt-encrypt}
use lifi_auth.KeyRam.{is_key_zeroed}
use lifi_auth.Nonce.{NonceState, pico_nonce_generate, store_be32}
use lifi_auth.Sender.{send_text}
use lifi_auth.Flash.Device.{FlashDevice}
use lifi_auth.Pico.{Pico}
use lifi_auth.Sender.{
  lifi_send_byte, lifi_send_bytes, send_preamble, send_chunks, send_id, send_message,
}
use lifi_auth.Sender.{msg_type_key_id_only}

ltb_not : (a b : ℕ) → b ≤ a → ltb a b ≡ false
ltb_not a b h = ground arith

pub nonce-size : (s : NonceState) → length s.boot_salt ≡ 8 → length (pico_nonce_generate s).0 ≡ 12
unfolding pico_nonce_generate store_be32
nonce-size s h = length-append s.boot_salt _ ∙ omega (arith, h)

-- A frame: the preamble, then type, length and payload, then their checksum.
abbrev pub body : ℕ → List ℕ → List ℕ
body type payload = type ∷ (be16 (length payload) ++ payload)

abbrev pub frame : ℕ → List ℕ → List ℕ
frame type payload =
    0xAB ∷ 0xCD ∷ 0xEF ∷ 0x12 ∷ (body type payload ++ be16 (crc16_ccitt (body type payload)))

module _ {d : FlashDevice} where
  -- The board once the bytes have been sent.
  abbrev pub sent : List ℕ → Pico d → Pico d
  sent bytes p = record p { lifi = p.lifi ++ bytes }

  sent-sent : (xs ys : List ℕ) (p : Pico d) → sent ys (sent xs p) ≡ sent (xs ++ ys) p
  sent-sent xs ys p = λ i. record p { lifi = append_assoc p.lifi xs ys i }

  pub send_bytes-sent : (bs : List ℕ) (p : Pico d) → lifi_send_bytes bs p ≡ sent bs p
  unfolding lifi_send_bytes lifi_send_byte
  send_bytes-sent [] p = λ i. record p { lifi = sym (append-nil p.lifi) i }
  send_bytes-sent (b ∷ bs) p = send_bytes-sent bs (sent (b ∷ []) p) ∙ sent-sent (b ∷ []) bs p

  send_chunks-sent :
      (rounds : ℕ) (bs : List ℕ) (p : Pico d)
      → length bs ≤ rounds
      → send_chunks rounds bs p ≡ sent bs p
  unfolding send_chunks
  send_chunks-sent zero [] p h = λ i. record p { lifi = sym (append-nil p.lifi) i }
  send_chunks-sent zero (b ∷ bs) p h = absurd (omega arith)
  send_chunks-sent (suc rounds) [] p h = λ i. record p { lifi = sym (append-nil p.lifi) i }
  send_chunks-sent (suc rounds) (b ∷ bs) p h =
      let rest = drop 256 (b ∷ bs) in
      let chunk = take 256 (b ∷ bs) in
      ap (send_chunks rounds rest) (send_bytes-sent chunk p)
      ∙ send_chunks-sent rounds rest (sent chunk p) (omega (arith, length-drop 255 bs))
      ∙ sent-sent chunk rest p
      ∙ ap (λ t. sent t p) (take-drop 256 (b ∷ bs))

  -- Bytes sent after others are sent behind them.
  pub send_bytes-append :
      (xs ys : List ℕ) (p : Pico d)
      → lifi_send_bytes ys (lifi_send_bytes xs p) ≡ lifi_send_bytes (xs ++ ys) p
  unfolding lifi_send_bytes
  send_bytes-append [] ys p = refl
  send_bytes-append (x ∷ xs) ys p = send_bytes-append xs ys (lifi_send_byte x p)

  -- The key ID, 8 bytes of it, goes out as one frame.
  pub send_id-sent :
      (p : Pico d)
      → length p.session_key_id ≡ 8
      → send_id p ≡ sent (frame msg_type_key_id_only p.session_key_id) p
  unfolding send_id send_preamble lifi_send_bytes
  send_id-sent p h =
      let id = p.session_key_id in
      let head : List ℕ = 0xAB ∷ 0xCD ∷ 0xEF ∷ 0x12 ∷ 0x07 ∷ be16 8 in
      let crc : List ℕ = be16 (crc16_ccitt (0x07 ∷ (be16 8 ++ id))) in
      let whole : lifi_send_bytes crc (lifi_send_bytes id (lifi_send_bytes head p))
          ≡ sent (head ++ (id ++ crc)) p =
        ap (lifi_send_bytes crc) (send_bytes-append head id p)
        ∙ send_bytes-append (head ++ id) crc p
        ∙ send_bytes-sent (head ++ (id ++ crc)) p in
      rw (take_all 8 id h, h) whole

  pub send_message-sent :
      (type n : ℕ) (nonce c tag : List ℕ) (p : Pico d)
      → length nonce ≡ 12
      → length c ≡ n
      → length tag ≡ 16
      → send_message type n nonce c tag p ≡ sent (frame type (nonce ++ (c ++ tag))) p
  unfolding send_message send_preamble lifi_send_bytes
  send_message-sent type n nonce c tag p a b e =
      let size : length (nonce ++ (c ++ tag)) ≡ 12 + n + 16 =
        omega (arith, length-append nonce (c ++ tag), length-append c tag) in
      let head : List ℕ = 0xAB ∷ 0xCD ∷ 0xEF ∷ 0x12 ∷ type ∷ be16 (12 + n + 16) in
      let crc : List ℕ =
        be16 (crc16_ccitt (type ∷ (be16 (12 + n + 16) ++ (nonce ++ (c ++ tag))))) in
      let chunks : (q : Pico d) → send_chunks n c q ≡ lifi_send_bytes c q =
        λ q. send_chunks-sent n c q (omega (arith, b)) ∙ sym (send_bytes-sent c q) in
      let text : lifi_send_bytes tag
            (lifi_send_bytes c (lifi_send_bytes nonce (lifi_send_bytes head p)))
          ≡ lifi_send_bytes (head ++ (nonce ++ (c ++ tag))) p =
        send_bytes-append c tag (lifi_send_bytes nonce (lifi_send_bytes head p))
        ∙ send_bytes-append nonce (c ++ tag) (lifi_send_bytes head p)
        ∙ send_bytes-append head (nonce ++ (c ++ tag)) p in
      let whole : lifi_send_bytes crc (
            lifi_send_bytes tag
              (lifi_send_bytes c (lifi_send_bytes nonce (lifi_send_bytes head p))))
          ≡ sent (head ++ ((nonce ++ (c ++ tag)) ++ crc)) p =
        ap (lifi_send_bytes crc) text
        ∙ send_bytes-append (head ++ (nonce ++ (c ++ tag))) crc p
        ∙ send_bytes-sent (head ++ ((nonce ++ (c ++ tag)) ++ crc)) p in
      rw (take_all n c b, size, chunks (lifi_send_bytes nonce (lifi_send_bytes head p))) whole

  module _ (m : Mbedtls) (lawful : IsLawful m) where
    -- A message of at most 8192 bytes, under a key that is not all zeros and a salt of 8 bytes,
    -- that is encrypted without an error, goes out as one frame of nonce, ciphertext and tag,
    -- and the counter of the nonces goes on.
    pub send_text-sent :
        (message : List ℕ) (type : ℕ) (p : Pico d) (c tag : List ℕ)
        → length message ≤ 8192
        → is_key_zeroed p.session_key ≡ false
        → length p.nonce.boot_salt ≡ 8
        → sst_encrypt_gcm m p.session_key (pico_nonce_generate p.nonce).0 message ≡ some (c, tag)
        → send_text m message type p
          ≡ sent
              (frame type ((pico_nonce_generate p.nonce).0 ++ (c ++ tag)))
              (record p { nonce = (pico_nonce_generate p.nonce).1 })
    unfolding send_text
    send_text-sent message type p c tag fits key salt made =
        let (back, size, tag_size) =
          gcm_decrypt-encrypt m lawful p.session_key (pico_nonce_generate p.nonce).0 message c tag
            made in
        rw (ltb_not 8192 (length message) fits, key, made, send_text)
          (send_message-sent type (length message) (pico_nonce_generate p.nonce).0 c tag
            (record p { nonce = (pico_nonce_generate p.nonce).1 }) (nonce-size p.nonce salt) size
            tag_size)
