-- ===== src/KeyManager/Mismatch.antt =====
-- What the sender makes of the key that the key manager sends.
use lifi_auth.Common.{ℕ, suc, ◌≤◌, ◌<◌, ◌≡◌, refl, sym, ap, ◌∙◌, subst, arith}
use lifi_auth.Common.{
  Bool, true, false, List, [], ◌∷◌, ◌++◌, length, take, drop, be16, take_all, append-nil,
  append_assoc,
}
use lifi_auth.Common.{
  take-drop, length-take, length-drop, length-append, Bool-cases, inl, inr, if◌then◌else◌,
}
use lifi_auth.Crypto.{Mbedtls}
use lifi_auth.Flash.Device.{FlashDevice}
use lifi_auth.Pico.{Env, Pico}
use lifi_auth.Uart.Laws.{arriving}
use lifi_auth.Receiver.Laws.{arriving-append}
use lifi_auth.Handshake.{take_byte, provision}
use lifi_auth.Handshake.Provision.{handle_key-arriving}
use lifi_auth.Handshake.Drain.{drain}
use lifi_auth.Handshake.Drain.Link.{drain-frame}
use lifi_auth.Host.{SessionKey}
use lifi_auth.Host.Port.{write_all}
use lifi_auth.Host.Port.Laws.{write_all-prefix}
use lifi_auth.KeyManager.{KeyManager, write_parts, key_parts, send_session_key}

abbrev joined : List (List ℕ) → List ℕ
joined [] = []
joined (part ∷ parts) = part ++ joined parts

-- If every part is written, they are in order behind what was sent before.
write_parts-sent :
    (parts : List (List ℕ)) (p : KeyManager)
    → (write_parts parts p).0 ≡ true
    → (write_parts parts p).1.sent ≡ p.sent ++ joined parts
unfolding write_parts
write_parts-sent [] p ok = sym (append-nil p.sent)
write_parts-sent (part ∷ parts) p ok =
    let written = write_all p.writes part in
    let p' = record p { sent = p.sent ++ written.1; writes = written.2 } in
    elim (Bool-cases written.0) [
      | inl whole ↦
          let rest : (write_parts parts p').0 ≡ true =
            subst
              (λ b.
                (let q : Bool × KeyManager = if b then write_parts parts p' else (false, p') in q.0)
                ≡ true)
              whole ok in
          rw whole (
            write_parts-sent parts p' rest
            ∙ append_assoc p.sent written.1 (joined parts)
            ∙ ap (λ t. p.sent ++ (t ++ joined parts)) ((write_all-prefix p.writes part).1 whole))
      | inr broken ↦
          let no_rest : false ≡ true =
            subst
              (λ b.
                (let q : Bool × KeyManager = if b then write_parts parts p' else (false, p') in q.0)
                ≡ true)
              broken ok in
          cc
    ]

-- The frame as it goes over the wire, behind preamble and type.
abbrev pub frame_body : SessionKey → List ℕ
frame_body k = be16 72 ++ (k.key_id ++ (k.cipher_key ++ k.mac_key))

-- A cipher key of 32 bytes and a MAC key of 32, cut where the sender cuts them.
cut :
    (id cipher_key mac_key : List ℕ)
    → be16 72 ++ (id ++ (cipher_key ++ mac_key))
      ≡ (be16 72 ++ (id ++ (take 16 cipher_key ++ ((drop 16 cipher_key ++ take 16 mac_key) ++ []))))
        ++ drop 16 mac_key
cut id cipher_key mac_key = sym (
    rw
      (
        append-nil (drop 16 cipher_key ++ take 16 mac_key),
        append_assoc id (take 16 cipher_key ++ (drop 16 cipher_key ++ take 16 mac_key))
            (drop 16 mac_key),
        append_assoc (take 16 cipher_key) (drop 16 cipher_key ++ take 16 mac_key) (drop 16 mac_key),
        append_assoc (drop 16 cipher_key) (take 16 mac_key) (drop 16 mac_key),
        take-drop 16 mac_key,
        ← append_assoc (take 16 cipher_key) (drop 16 cipher_key) mac_key,
        take-drop 16 cipher_key,
      )
      refl)

module _ (d : FlashDevice) (m : Mbedtls) (e : Env) where
  -- If sending a key of 8, 32 and 32 bytes reports success, the key manager has written some bytes;
  -- and if these bytes are all that the sender's UART brings, in any state of its search, with at
  -- least 32 polls in a read's time, then its loop provisions another key: the first 16 bytes of
  -- the cipher key, with the other 16 and the first 16 of the MAC key as MAC key. It goes on
  -- with the last 16 bytes of the MAC key as if they were input.
  pub drain-send_session_key :
      (p : KeyManager) (state fuel : ℕ) (pico : Pico d)
      → (send_session_key p).0 ≡ true
      → length p.s_key.key_id ≡ 8
      → length p.s_key.cipher_key ≡ 32
      → length p.s_key.mac_key ≡ 32
      → state < 4
      → 32 ≤ e.polls 100000
      → (bytes : List ℕ) × ((send_session_key p).1.sent ≡ p.sent ++ bytes)
        × (drain d m e
              (suc (suc (suc (suc (suc fuel)))))
              state
              (record pico { uart = arriving bytes ++ [] })
            ≡ drain d m e fuel 0 (
                provision d m e p.s_key.key_id
                  (take 16 p.s_key.cipher_key)
                  (drop 16 p.s_key.cipher_key ++ take 16 p.s_key.mac_key)
                  (record pico { uart = arriving (drop 16 p.s_key.mac_key) ++ [] })))
  unfolding send_session_key take_byte
  drain-send_session_key p state fuel pico ok id_size key_size mac_size range fast =
      let k : SessionKey = p.s_key in
      let key : List ℕ = take 16 k.cipher_key in
      let mac_key : List ℕ = drop 16 k.cipher_key ++ take 16 k.mac_key in
      let front : List ℕ = be16 72 ++ (k.key_id ++ (key ++ (mac_key ++ []))) in
      let back : List ℕ = drop 16 k.mac_key in
      let frame : List ℕ → List ℕ = (λ bs. 0xAB ∷ 0xCD ∷ 0xEF ∷ 0x12 ∷ 0x10 ∷ bs) in
      let same : joined (key_parts k) ≡ frame (front ++ back) =
        rw
          (
            take_all 8 k.key_id id_size,
            take_all 32 k.cipher_key key_size,
            take_all 32 k.mac_key mac_size,
            append-nil k.mac_key,
          )
          (ap frame (cut k.key_id k.cipher_key k.mac_key)) in
      let key_is : length key ≡ 16 = omega (arith, key_size, length-take 16 k.cipher_key) in
      let mac_is : length mac_key ≡ 32 = omega (
        arith,
        key_size,
        mac_size,
        length-append (drop 16 k.cipher_key) (take 16 k.mac_key),
        length-drop 16 k.cipher_key,
        length-take 16 k.mac_key,
      ) in
      (
        joined (key_parts k),
        write_parts-sent (key_parts k) p ok,
        ap
              (λ bs.
                drain d m e (suc (suc (suc (suc (suc fuel))))) state
                  (record pico { uart = arriving bs ++ [] }))
              same
            ∙ ap
                (λ ps.
                  drain d m e (suc (suc (suc (suc (suc fuel))))) state (record pico { uart = ps }))
                (arriving-append (frame front) back [])
            ∙ drain-frame d m e fuel state 0x10 front pico (arriving back ++ []) range
            ∙ ap (drain d m e fuel 0) (
                handle_key-arriving d m e (be16 72) k.key_id key mac_key pico (arriving back ++ [])
                  refl id_size key_is mac_is fast),
      )
