-- ===== src/Handshake/Drain/Link.antt =====
-- From a key that the host sends to the sender that has it.
use lifi_auth.Common.{
  ℕ, zero, suc, ◌≤◌, ◌<◌, ◌≡◌, refl, sym, ap, subst, ◌∙◌, arith, true, some, none,
}
use lifi_auth.Common.{
  List, [], ◌∷◌, ◌++◌, length, take, be16, take_all, append-nil, Bool-cases, Option-cases, inl, inr,
}
use lifi_auth.Crypto.{Mbedtls, IsLawful}
use lifi_auth.Flash.{pico_write_key_to_slot}
use lifi_auth.Flash.Device.{FlashDevice}
use lifi_auth.Flash.Slots.{IsKeyPair}
use lifi_auth.Pico.{Env, Pico, pico_reboot}
use lifi_auth.Uart.{Poll}
use lifi_auth.Uart.Laws.{arriving}
use lifi_auth.Handshake.{challenge_step, take_byte, provision, renew_nonce}
use lifi_auth.Handshake.Provision.{IsProvisioned, provision-IsProvisioned, handle_key-arriving}
use lifi_auth.Handshake.Drain.{next_byte, drain}
use lifi_auth.Host.{Host, SessionKey}
use lifi_auth.Host.Port.{send_key}
use lifi_auth.Host.Port.Laws.{key_frame, send_key-sent}

module _ (d : FlashDevice) (m : Mbedtls) (e : Env) where
  -- A preamble is found whatever came before, and the byte behind it is taken as a type.
  pub drain-frame :
      (fuel state type : ℕ) (bs : List ℕ) (p : Pico d) (ps : List Poll)
      → state < 4
      → drain d m e
          (suc (suc (suc (suc (suc fuel)))))
          state
          (record p { uart = arriving (0xAB ∷ 0xCD ∷ 0xEF ∷ 0x12 ∷ type ∷ bs) ++ ps })
        ≡ (let next = take_byte d m e 4 type (record p { uart = arriving bs ++ ps }) in
            drain d m e fuel next.0 next.1)
  unfolding drain next_byte take_byte challenge_step
  drain-frame fuel zero type bs p ps h = refl
  drain-frame fuel (suc zero) type bs p ps h = refl
  drain-frame fuel (suc (suc zero)) type bs p ps h = refl
  drain-frame fuel (suc (suc (suc zero))) type bs p ps h = refl
  drain-frame fuel (suc (suc (suc (suc s)))) type bs p ps h = absurd (omega arith)

  -- With nothing to read, the loop stops.
  pub drain-nothing :
      (fuel state : ℕ) (p : Pico d)
      → next_byte p.uart ≡ none
      → drain d m e fuel state p ≡ (state, p)
  unfolding drain
  drain-nothing zero state p h = refl
  drain-nothing (suc fuel) state p h = rw (h, drain) refl

  provision-uart :
      (id key mac_key : List ℕ) (p : Pico d) → (provision d m e id key mac_key p).uart ≡ p.uart
  unfolding provision renew_nonce pico_reboot
  provision-uart id key mac_key p =
      elim (Bool-cases (pico_write_key_to_slot d m p.flash p.current_slot id key).0) [
        | inl ok ↦ elim (Option-cases (e.drbg p.draws 8)) [
          | inl failed ↦ rw (ok, failed, provision, renew_nonce) refl
          | inr (random, drawn) ↦ rw (ok, drawn, provision, renew_nonce) refl
        ]
        | inr bad ↦ rw (bad, provision) refl
      ]

  -- A key frame, as the only input, leaves the board as the key is provisioned.
  drain-key :
      (fuel state : ℕ) (len id key mac_key : List ℕ) (p : Pico d)
      → state < 4
      → length len ≡ 2
      → length id ≡ 8
      → length key ≡ 16
      → length mac_key ≡ 32
      → 32 ≤ e.polls 100000
      → drain d m e (suc (suc (suc (suc (suc fuel))))) state (record p {
        uart =
            arriving (0xAB ∷ 0xCD ∷ 0xEF ∷ 0x12 ∷ 0x10 ∷ (len ++ (id ++ (key ++ (mac_key ++ [])))))
            ++ [];
      })
        ≡ (0, provision d m e id key mac_key (record p { uart = [] }))
  unfolding take_byte next_byte
  drain-key fuel state len id key mac_key p h a b c f fast =
      drain-frame fuel state 0x10 (len ++ (id ++ (key ++ (mac_key ++ [])))) p [] h
      ∙ rw (handle_key-arriving d m e len id key mac_key p [] a b c f fast) (
          drain-nothing fuel 0 (provision d m e id key mac_key (record p { uart = [] }))
            (ap next_byte (provision-uart id key mac_key (record p { uart = [] }))))

  module _ (lawful : IsLawful m) where
    -- If sending a key reports success, the host has written some bytes behind those before; and if
    -- these bytes are all that the sender's UART brings, in any state of its search, with the
    -- current slot A or B, at least 32 polls in a read's time and a working generator, then its
    -- loop, in no more rounds than there are bytes, puts the host's key (the first 16 bytes) into
    -- the current slot, into RAM and into use, with its ID and its MAC key, and a new salt for its
    -- nonces.
    pub drain-send_key :
        (k : SessionKey) (h : Host) (state : ℕ) (random : List ℕ) (p : Pico d)
        → (send_key k h).0 ≡ true
        → IsKeyPair k.key_id (take 16 k.cipher_key)
        → length k.mac_key ≡ 32
        → state < 4
        → 32 ≤ e.polls 100000
        → p.current_slot < 2
        → e.drbg p.draws 8 ≡ some random
        → (bytes : List ℕ) × ((send_key k h).1.sent ≡ h.sent ++ bytes)
          × IsProvisioned d m e k.key_id
              (take 16 k.cipher_key)
              k.mac_key
              random
              (drain d m e (length bytes) state (record p { uart = arriving bytes ++ [] })).1
    drain-send_key k h state random p ok pair size range fast slot drawn =
        let key : List ℕ = take 16 k.cipher_key in
        let rest : List ℕ = take 8 k.key_id ++ (key ++ take 32 k.mac_key) in
        let same : be16 56 ++ rest ≡ be16 56 ++ (k.key_id ++ (key ++ (k.mac_key ++ []))) =
          rw (take_all 8 k.key_id pair.id_size, take_all 32 k.mac_key size, append-nil k.mac_key)
            refl in
        let fuel : ℕ = length (be16 56 ++ rest) in
        let run = (λ (bs : List ℕ).
          drain d m e (suc (suc (suc (suc (suc fuel))))) state
            (record p { uart = arriving (0xAB ∷ 0xCD ∷ 0xEF ∷ 0x12 ∷ 0x10 ∷ bs) ++ [] })) in
        let ends : run (be16 56 ++ rest)
            ≡ (0, provision d m e k.key_id key k.mac_key (record p { uart = [] })) =
          ap run same
          ∙ drain-key fuel state (be16 56) k.key_id key k.mac_key p range refl pair.id_size
              pair.key_size size fast in
        (
          key_frame k,
          send_key-sent k h ok,
          subst (IsProvisioned d m e k.key_id key k.mac_key random)
              (sym (ap (λ (r : ℕ × Pico d). r.1) ends))
              (provision-IsProvisioned d m e lawful k.key_id key k.mac_key random
                (record p { uart = [] }) pair slot drawn),
        )
