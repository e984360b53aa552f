-- ===== src/Handshake/Drain/Ends.antt =====
-- The loop that drains the UART ends.
use lifi_auth.Common.{ℕ, zero, suc, ◌+◌, ◌≤◌, ◌<◌, ◌≡◌, refl, ap, arith, ◌&&◌, ◌||◌}
use lifi_auth.Common.{
  Option, some, none, List, [], ◌∷◌, ◌++◌, length, take, drop, slice, get_or, be16, le32, of_be16,
}
use lifi_auth.Common.{
  length-append, length-take, length-drop, if_both, option_both, if◌then◌else◌, ◌==◌, ltb, bytes_eq,
}
use lifi_auth.Common.{Bool-cases, Option-cases, inl, inr, some_eq}
use lifi_auth.Crc.{crc16_ccitt}
use lifi_auth.Crypto.{
  Mbedtls, sst_hmac_sha256_ex, sst_aes_128_cbc_decrypt, sst_aes_128_cbc_encrypt_pkcs7,
}
use lifi_auth.Flash.{pico_write_key_to_slot}
use lifi_auth.Flash.Device.{FlashDevice}
use lifi_auth.Pico.{Env, Pico, pico_reboot}
use lifi_auth.Sender.{lifi_send_byte, lifi_send_bytes, send_preamble}
use lifi_auth.Uart.{Poll, idle, ready, collect, uart_read_blocking_timeout, flush}
use lifi_auth.Handshake.{
  read_uart, flush_uart, mac_ok, send_hs2, check_hs1, handle_hs1, check_hs3, handle_hs3,
}
use lifi_auth.Handshake.{renew_nonce, provision, finish_key, handle_key, take_byte}
use lifi_auth.Handshake.Drain.{next_byte, drain}

collect-le : (n : ℕ) (ps : List Poll) → length (collect n ps).1 ≤ length ps
unfolding collect
collect-le zero ps = omega arith
collect-le (suc n) [] = omega arith
collect-le (suc n) (idle ∷ ps) = omega (arith, collect-le (suc n) ps)
collect-le (suc n) (ready b ∷ ps) = omega (arith, collect-le n ps)

read-le :
    (deadline n : ℕ) (ps : List Poll)
    → length (uart_read_blocking_timeout deadline n ps).1 ≤ length ps
unfolding uart_read_blocking_timeout
read-le deadline n ps = omega (
  arith,
  length-append (collect n (take deadline ps)).1 (drop deadline ps),
  collect-le n (take deadline ps),
  length-take deadline ps,
  length-drop deadline ps,
)

flush-le : (ps : List Poll) → length (flush ps) ≤ length ps
unfolding flush
flush-le [] = omega arith
flush-le (idle ∷ ps) = omega arith
flush-le (ready b ∷ ps) = omega (arith, flush-le ps)

module _ (d : FlashDevice) (m : Mbedtls) (e : Env) (n : ℕ) where
  -- No more than so many polls are left.
  abbrev IsLeft : Pico d → Type 0
  IsLeft p = length p.uart ≤ n

  send_bytes-IsLeft : (bs : List ℕ) (p : Pico d) → IsLeft p → IsLeft (lifi_send_bytes bs p)
  unfolding lifi_send_bytes lifi_send_byte
  send_bytes-IsLeft [] p h = h
  send_bytes-IsLeft (b ∷ bs) p h = send_bytes-IsLeft bs (lifi_send_byte b p) h

  read_uart-IsLeft : (len us : ℕ) (p : Pico d) → IsLeft p → IsLeft (read_uart d m e len us p).1
  unfolding read_uart
  read_uart-IsLeft len us p h = omega (arith, h, read-le (e.polls us) len p.uart)

  flush_uart-IsLeft : (p : Pico d) → IsLeft p → IsLeft (flush_uart d m e p)
  unfolding flush_uart
  flush_uart-IsLeft p h = omega (arith, h, flush-le p.uart)

  send_hs2-IsLeft : (nonce : List ℕ) (p : Pico d) → IsLeft p → IsLeft (send_hs2 d m e nonce p)
  unfolding send_hs2 send_preamble lifi_send_byte
  send_hs2-IsLeft nonce p h =
      let pico_nonce = le32 (e.rand_32 p.words) ++ le32 (e.rand_32 (p.words + 1)) in
      let iv2 =
        le32 (e.rand_32 (p.words + 2))
        ++ (le32 (e.rand_32 (p.words + 3))
            ++ (le32 (e.rand_32 (p.words + 4)) ++ le32 (e.rand_32 (p.words + 5)))) in
      elim (Option-cases
        (sst_aes_128_cbc_encrypt_pkcs7 m p.session_key iv2 (2 ∷ (pico_nonce ++ nonce)))) [
          | inl failed ↦ rw (failed, send_hs2) h
          | inr (ctext, made) ↦
              elim (Option-cases (sst_hmac_sha256_ex m p.session_mac_key 32 (iv2 ++ ctext))) [
                | inl failed ↦ rw (made, failed, send_hs2) h
                | inr (mac, coded) ↦
                    let bytes : List ℕ = iv2 ++ (ctext ++ mac) in
                    rw (made, coded, send_hs2)
                      (send_bytes-IsLeft (be16 (crc16_ccitt (0x09 ∷ (be16 80 ++ bytes)))) _
                        (send_bytes-IsLeft bytes _ (send_bytes-IsLeft (be16 80) _ h)))
              ]
        ]

  check_hs1-IsLeft : (hs1 : List ℕ) (p : Pico d) → IsLeft p → IsLeft (check_hs1 d m e hs1 p)
  unfolding check_hs1
  check_hs1-IsLeft hs1 p h =
      let blob = drop 8 hs1 in
      let answer = (λ (plain : List ℕ).
        let pad = get_or plain 15 0 in
        if ltb pad 1 || ltb 16 pad then p else send_hs2 d m e (slice 1 8 plain) p) in
      let opened = sst_aes_128_cbc_decrypt m p.session_key (take 16 blob) (slice 16 16 blob) in
      if_both IsLeft
        (bytes_eq (take 8 hs1) p.session_key_id
          && mac_ok d m e p.session_mac_key (take 32 blob) (slice 32 32 blob))
        (elim opened [ none ↦ p | some plain ↦ answer plain ]) p
        (option_both IsLeft opened p answer h (λ plain.
          if_both IsLeft (ltb (get_or plain 15 0) 1 || ltb 16 (get_or plain 15 0)) p
            (send_hs2 d m e (slice 1 8 plain) p) h (send_hs2-IsLeft (slice 1 8 plain) p h)))
        h

  check_hs3-IsLeft : (hs3 : List ℕ) (p : Pico d) → IsLeft p → IsLeft (check_hs3 d m e hs3 p)
  unfolding check_hs3
  check_hs3-IsLeft hs3 p h =
      elim (Bool-cases (mac_ok d m e p.session_mac_key (take 48 hs3) (slice 48 32 hs3))) [
        | inl good ↦
            elim (Option-cases
              (sst_aes_128_cbc_decrypt m p.session_key (take 16 hs3) (slice 16 32 hs3))) [
                | inl failed ↦ rw (good, failed, check_hs3) h
                | inr (plain, opened) ↦ rw (good, opened, check_hs3) h
              ]
        | inr bad ↦ rw (bad, check_hs3) h
      ]

  -- What a payload that may have timed out leads to.
  handle_hs1-IsLeft : (p : Pico d) → IsLeft p → IsLeft (handle_hs1 d m e p)
  unfolding handle_hs1
  handle_hs1-IsLeft p h =
      let len = read_uart d m e 2 50000 p in
      let payload = read_uart d m e 72 200000 len.1 in
      let t : IsLeft len.1 = read_uart-IsLeft 2 50000 p h in
      let u : IsLeft payload.1 = read_uart-IsLeft 72 200000 len.1 t in
      let flushed = flush_uart d m e len.1 in
      let checked = (λ (hs1 : List ℕ). check_hs1 d m e hs1 payload.1) in
      let f : IsLeft flushed = flush_uart-IsLeft len.1 t in
      let read : Pico d = elim payload.0 [ none ↦ payload.1 | some hs1 ↦ checked hs1 ] in
      option_both IsLeft len.0 flushed
        (λ bytes. if of_be16 (get_or bytes 0 0) (get_or bytes 1 0) == 72 then read else flushed) f
        (λ bytes.
          if_both IsLeft (of_be16 (get_or bytes 0 0) (get_or bytes 1 0) == 72) read flushed
            (option_both IsLeft payload.0 payload.1 checked u
              (λ hs1. check_hs1-IsLeft hs1 payload.1 u))
            f)

  handle_hs3-IsLeft : (p : Pico d) → IsLeft p → IsLeft (handle_hs3 d m e p)
  unfolding handle_hs3
  handle_hs3-IsLeft p h =
      let len = read_uart d m e 2 50000 p in
      let payload = read_uart d m e 80 200000 len.1 in
      let t : IsLeft len.1 = read_uart-IsLeft 2 50000 p h in
      let u : IsLeft payload.1 = read_uart-IsLeft 80 200000 len.1 t in
      let checked = (λ (hs3 : List ℕ). check_hs3 d m e hs3 payload.1) in
      let read : Pico d = elim payload.0 [ none ↦ payload.1 | some hs3 ↦ checked hs3 ] in
      option_both IsLeft len.0 len.1
        (λ bytes. if of_be16 (get_or bytes 0 0) (get_or bytes 1 0) == 80 then read else len.1) t
        (λ bytes.
          if_both IsLeft (of_be16 (get_or bytes 0 0) (get_or bytes 1 0) == 80) read len.1
            (option_both IsLeft payload.0 payload.1 checked u
              (λ hs3. check_hs3-IsLeft hs3 payload.1 u))
            t)

  provision-IsLeft :
      (id key mac_key : List ℕ) (p : Pico d) → IsLeft p → IsLeft (provision d m e id key mac_key p)
  unfolding provision renew_nonce pico_reboot
  provision-IsLeft id key mac_key p h =
      elim (Bool-cases (pico_write_key_to_slot d m p.flash p.current_slot id key).0) [
        | inl ok ↦ elim (Option-cases (e.drbg p.draws 8)) [
          | inl failed ↦ rw (ok, failed, provision, renew_nonce) h
          | inr (random, drawn) ↦ rw (ok, drawn, provision, renew_nonce) h
        ]
        | inr bad ↦ rw (bad, provision) h
      ]

  finish_key-IsLeft :
      (len id key mac_key : Option (List ℕ) × Pico d)
      → IsLeft len.1
      → IsLeft id.1
      → IsLeft key.1
      → IsLeft mac_key.1
      → IsLeft (finish_key d m e len id key mac_key)
  unfolding finish_key
  finish_key-IsLeft (some l, p₁) (some i, p₂) (some k, p₃) (some mk, p₄) a b c f =
      provision-IsLeft i k mk p₄ f
  finish_key-IsLeft (some l, p₁) (some i, p₂) (some k, p₃) (none, p₄) a b c f =
      flush_uart-IsLeft p₄ f
  finish_key-IsLeft (some l, p₁) (some i, p₂) (none, p₃) mk a b c f = flush_uart-IsLeft p₃ c
  finish_key-IsLeft (some l, p₁) (none, p₂) k mk a b c f = flush_uart-IsLeft p₂ b
  finish_key-IsLeft (none, p₁) i k mk a b c f = flush_uart-IsLeft p₁ a

  handle_key-IsLeft : (p : Pico d) → IsLeft p → IsLeft (handle_key d m e p)
  unfolding handle_key
  handle_key-IsLeft p h =
      let len = read_uart d m e 2 100000 p in
      let a : IsLeft len.1 = read_uart-IsLeft 2 100000 p h in
      let id = read_uart d m e 8 100000 len.1 in
      let b : IsLeft id.1 = read_uart-IsLeft 8 100000 len.1 a in
      let key = read_uart d m e 16 100000 id.1 in
      let c : IsLeft key.1 = read_uart-IsLeft 16 100000 id.1 b in
      finish_key-IsLeft len id key (read_uart d m e 32 100000 key.1) a b c
        (read_uart-IsLeft 32 100000 key.1 c)

  take_byte-IsLeft :
      (state byte : ℕ) (p : Pico d) → IsLeft p → IsLeft (take_byte d m e state byte p).1
  unfolding take_byte
  take_byte-IsLeft (suc (suc (suc (suc s)))) byte p h =
      let hs1 = handle_hs1 d m e p in
      let hs3 = handle_hs3 d m e p in
      let key = handle_key d m e p in
      let last : Pico d = if byte == 0x10 then key else p in
      if_both IsLeft (byte == 0x08) hs1 (if byte == 0x0A then hs3 else last) (handle_hs1-IsLeft p h)
        (if_both IsLeft (byte == 0x0A) hs3 last (handle_hs3-IsLeft p h)
          (if_both IsLeft (byte == 0x10) key p (handle_key-IsLeft p h) h))
  take_byte-IsLeft zero byte p h = h
  take_byte-IsLeft (suc zero) byte p h = h
  take_byte-IsLeft (suc (suc zero)) byte p h = h
  take_byte-IsLeft (suc (suc (suc zero))) byte p h = h

next_byte-lt :
    (ps rest : List Poll) (byte : ℕ) → next_byte ps ≡ some (byte, rest) → length rest < length ps
unfolding next_byte
next_byte-lt [] rest byte h = cc
next_byte-lt (idle ∷ ps) rest byte h = cc
next_byte-lt (ready b ∷ ps) rest byte h =
    omega (arith, ap (λ (r : ℕ × List Poll). length r.1) (some_eq h))

next_byte_empty : (ps : List Poll) → length ps ≤ 0 → next_byte ps ≡ none
unfolding next_byte
next_byte_empty [] h = refl
next_byte_empty (q ∷ ps) h = absurd (omega arith)

-- As many rounds as there are polls left are enough: the loop has ended because no byte can be
-- read, whatever the bytes were.
pub drain-ends :
    (d : FlashDevice) (m : Mbedtls) (e : Env) (fuel state : ℕ) (p : Pico d)
    → length p.uart ≤ fuel
    → next_byte (drain d m e fuel state p).1.uart ≡ none
unfolding drain
drain-ends d m e zero state p h = next_byte_empty p.uart h
drain-ends d m e (suc fuel) state p h = elim (Option-cases (next_byte p.uart)) [
  | inl nothing ↦ rw (nothing, drain) nothing
  | inr ((byte, rest), got) ↦
      let next = take_byte d m e state byte (record p { uart = rest }) in
      rw (got, drain)
        (drain-ends d m e fuel next.0 next.1 (
          take_byte-IsLeft d m e fuel state byte (record p { uart = rest })
            (omega (arith, h, next_byte-lt p.uart rest byte got))))
]
