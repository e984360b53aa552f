-- ===== src/Mutual/Agree.antt =====
-- The whole handshake.
use lifi_auth.Common.{ℕ, suc, ◌≤◌, ◌<◌, ◌≡◌, refl, sym, ap, ◌∙◌, arith, true, some, none}
use lifi_auth.Common.{
  List, [], ◌∷◌, ◌++◌, length, length-append, take, drop, be16, zeros, append-nil,
}
use lifi_auth.Crypto.{Mbedtls, IsLawful}
use lifi_auth.Flash.Device.{FlashDevice}
use lifi_auth.Handshake.{take_byte, handle_hs1, handle_hs3, check_hs1, check_hs3, read_uart}
use lifi_auth.Handshake.Drain.{drain, next_byte}
use lifi_auth.Handshake.Drain.Link.{drain-frame, drain-nothing}
use lifi_auth.Handshake.Provision.{read_uart-arriving}
use lifi_auth.Host.{Host, Sst, SessionKey, WriteResult, wrote, s_key}
use lifi_auth.Host.Handshake.{start_handshake, is_idle}
use lifi_auth.Host.Packets.{handle_hs2, take_input}
use lifi_auth.Host.Port.{header}
use lifi_auth.Mutual.{IsSstLawful, IsWorking, IsShared}
use lifi_auth.Mutual.Sealed.{sealed_first-size, sealed_pair-size}
use lifi_auth.Mutual.Sender.{check_hs1-sealed, check_hs3-sealed, send_hs2-answered, answered}
use lifi_auth.Mutual.Receiver.{asked, closed, start_handshake-asked, handle_hs2-closed}
use lifi_auth.Pico.{Env, Pico}
use lifi_auth.Receiver.{find_packet}
use lifi_auth.Receiver.Laws.{find_packet-arriving}
use lifi_auth.Sender.Laws.{frame}
use lifi_auth.Uart.{Poll}
use lifi_auth.Uart.Laws.{arriving}

module _ (d : FlashDevice) (m : Mbedtls) (e : Env) where
  -- Length and payload of a frame that arrives without a pause.
  read_both :
      (n : ℕ) (payload : List ℕ) (p : Pico d)
      → length payload ≡ n
      → 2 ≤ e.polls 50000
      → n ≤ e.polls 200000
      → (read_uart d m e 2 50000 (record p { uart = arriving (be16 n ++ payload) ++ [] })
          ≡ (some (be16 n), record p { uart = arriving payload ++ [] }))
        × (read_uart d m e n 200000 (record p { uart = arriving payload ++ [] })
            ≡ (some payload, record p { uart = [] }))
  read_both n payload p size short long = (
    read_uart-arriving d m e 2 50000 (be16 n) payload p [] refl short,
    ap (λ bs. read_uart d m e n 200000 (record p { uart = arriving bs ++ [] }))
          (sym (append-nil payload))
        ∙ read_uart-arriving d m e n 200000 payload [] p [] size long,
  )

  -- A first message as the only input reaches its check.
  drain-hs1 :
      (fuel state : ℕ) (hs1 : List ℕ) (p : Pico d)
      → state < 4
      → length hs1 ≡ 72
      → 2 ≤ e.polls 50000
      → 72 ≤ e.polls 200000
      → next_byte (check_hs1 d m e hs1 (record p { uart = [] })).uart ≡ none
      → drain d m e
          (suc (suc (suc (suc (suc fuel)))))
          state
          (record p { uart = arriving (header 0x08 72 ++ hs1) ++ [] })
        ≡ (0, check_hs1 d m e hs1 (record p { uart = [] }))
  unfolding take_byte handle_hs1
  drain-hs1 fuel state hs1 p range size short long quiet =
      let (read_len, read) = read_both 72 hs1 p size short long in
      let handled : handle_hs1 d m e (record p { uart = arriving (be16 72 ++ hs1) ++ [] })
          ≡ check_hs1 d m e hs1 (record p { uart = [] }) =
        rw
          (
            ap (λ t. t.0) read_len,
            ap (λ t. t.1) read_len,
            handle_hs1,
            ap (λ t. t.0) read,
            ap (λ t. t.1) read_len,
            ap (λ t. t.1) read,
          )
          refl in
      drain-frame d m e fuel state 0x08 (be16 72 ++ hs1) p [] range
      ∙ rw handled (drain-nothing d m e fuel 0 (check_hs1 d m e hs1 (record p { uart = [] })) quiet)

  -- A third message as the only input reaches its check.
  drain-hs3 :
      (fuel state : ℕ) (hs3 : List ℕ) (p : Pico d)
      → state < 4
      → length hs3 ≡ 80
      → 2 ≤ e.polls 50000
      → 80 ≤ e.polls 200000
      → next_byte (check_hs3 d m e hs3 (record p { uart = [] })).uart ≡ none
      → drain d m e
          (suc (suc (suc (suc (suc fuel)))))
          state
          (record p { uart = arriving (header 0x0A 80 ++ hs3) ++ [] })
        ≡ (0, check_hs3 d m e hs3 (record p { uart = [] }))
  unfolding take_byte handle_hs3
  drain-hs3 fuel state hs3 p range size short long quiet =
      let (read_len, read) = read_both 80 hs3 p size short long in
      let handled : handle_hs3 d m e (record p { uart = arriving (be16 80 ++ hs3) ++ [] })
          ≡ check_hs3 d m e hs3 (record p { uart = [] }) =
        rw
          (
            ap (λ t. t.0) read_len,
            ap (λ t. t.1) read_len,
            handle_hs3,
            ap (λ t. t.0) read,
            ap (λ t. t.1) read_len,
            ap (λ t. t.1) read,
          )
          refl in
      drain-frame d m e fuel state 0x0A (be16 80 ++ hs3) p [] range
      ∙ rw handled (drain-nothing d m e fuel 0 (check_hs3 d m e hs3 (record p { uart = [] })) quiet)

  -- Both sides poll often enough to read messages that arrive without a pause.
  pub record IsQuick (polls_ms : ℕ → ℕ) : Type 0 where
    pub sender_length : 2 ≤ e.polls 50000
    pub sender_payload : 80 ≤ e.polls 200000
    pub host_length : 2 ≤ polls_ms 100
    pub host_payload : 80 ≤ polls_ms 200

  -- A run of the handshake: what the host writes, what the sender sends over light when its loop
  -- has taken that, the packet that the host finds in it, with `ps` behind it, what the host then
  -- writes, and that the sender, when its loop has taken that too, has lit the LED and forgotten
  -- its nonce, while the host is idle and has forgotten its own.
  pub record IsAgreed (polls_ms : ℕ → ℕ) (sst : Sst) (now state hunt : ℕ) (ps : List Poll)
      (h : Host) (p : Pico d) : Type 0 where
    pub first : List ℕ
    pub second : List ℕ
    pub packet : List Poll
    pub third : List ℕ
    pub host_waiting : Host
    pub sender_waiting : Pico d
    pub host_done : Host
    pub sender_done : Pico d
    pub asks : start_handshake sst now h ≡ host_waiting
    pub writes_first : host_waiting.sent ≡ h.sent ++ first
    pub answers :
        drain d m e (length first) state (record p { uart = arriving first ++ [] })
        ≡ (0, sender_waiting)
    pub sends_second : sender_waiting.lifi ≡ p.lifi ++ second
    pub finds : find_packet hunt (arriving second ++ ps) ≡ some (0x09, packet ++ ps)
    pub checks : handle_hs2 m polls_ms sst (take_input (packet ++ ps) host_waiting) ≡ host_done
    pub writes_third : host_done.sent ≡ host_waiting.sent ++ third
    pub leaves : host_done.rx.input ≡ ps
    pub host_idle : is_idle host_done.state ≡ true
    pub host_forgets : host_done.entity_nonce ≡ zeros 8
    pub accepts :
        drain d m e (length third) 0 (record sender_waiting { uart = arriving third ++ [] })
        ≡ (0, sender_done)
    pub lit : sender_done.auth_led ≡ true
    pub sender_forgets : sender_done.saved_pico_nonce ≡ zeros 8

  module _ (lawful : IsLawful m) (working : IsWorking m) (polls_ms : ℕ → ℕ)
      (quick : IsQuick polls_ms) (sst : Sst) (sst_lawful : IsSstLawful m sst) where
    -- The handshake succeeds between a host and a sender with the same key. If SST makes a first
    -- message, the port takes the four writes of the host whole, both sides poll often enough, and
    -- the sender's encryption and codes do not fail, then, from any state of either hunt for a
    -- preamble: the host's first message makes the sender's loop answer over light, the host finds
    -- that packet, checks it and writes the third message, which makes the sender's loop light the
    -- LED; in the end the host is idle and both have forgotten their nonces.
    pub handshake-IsAgreed :
        (now state hunt : ℕ) (nonce hs1 : List ℕ) (ps : List Poll) (rest : List WriteResult)
        (h : Host) (p : Pico d)
        → IsShared d (s_key h) p
        → sst.parse_handshake_1 h.calls (s_key h) ≡ some (nonce, hs1)
        → h.writes ≡ wrote 7 ∷ wrote 72 ∷ wrote 7 ∷ wrote 80 ∷ rest
        → state < 4
        → hunt < 4
        → IsAgreed polls_ms sst now state hunt ps h p
    unfolding next_byte
    handshake-IsAgreed now state hunt nonce hs1 ps rest h p shared made writes range looking =
        let k : SessionKey = s_key h in
        let (nonce_size, nonce_bytes, (blob, laid, sealed)) =
          sst_lawful.first h.calls k nonce hs1 made in
        let blob_size : length blob ≡ 64 =
          sealed_first-size m lawful k.cipher_key k.mac_key nonce blob nonce_size sealed in
        let hs1_size : length hs1 ≡ 72 =
          ap length laid
          ∙ length-append (take 8 k.key_id) blob
          ∙ omega (arith, ap length (sym shared.id) ∙ shared.id_size, blob_size) in
        let p₀ : Pico d = record p { uart = [] } in
        let (pico_nonce, pico_size, blob₂, sealed₂, sent₂) =
          send_hs2-answered d m e lawful k nonce p₀ working shared nonce_size nonce_bytes in
        let p₁ : Pico d = answered d m e lawful k pico_nonce blob₂ p₀ in
        let checked : check_hs1 d m e hs1 p₀ ≡ p₁ =
          ap (λ t. check_hs1 d m e t p₀) laid
          ∙ check_hs1-sealed d m e lawful k nonce blob p₀ shared nonce_size sealed
          ∙ sent₂ in
        let (size₂, bytes₂) =
          sealed_pair-size m lawful 2 k.cipher_key k.mac_key pico_nonce nonce blob₂ pico_size
            nonce_size sealed₂ in
        let h₁ : Host = asked now nonce hs1 (wrote 7 ∷ wrote 80 ∷ rest) h in
        let (hs3, answer, sealed₃) =
          sst_lawful.third h₁.calls k pico_nonce nonce blob₂ pico_size nonce_size sealed₂ in
        let (size₃, _) =
          sealed_pair-size m lawful 3 k.cipher_key k.mac_key nonce pico_nonce hs3 nonce_size
            pico_size sealed₃ in
        let packet : List Poll = arriving (drop 5 (frame 0x09 blob₂)) in
        let h₂ : Host = closed m polls_ms hs3 ps rest (take_input (packet ++ ps) h₁) in
        let accepted : check_hs3 d m e hs3 p₁
            ≡ record p₁ { saved_pico_nonce = zeros 8; auth_led = true } =
          check_hs3-sealed d m e lawful k nonce hs3 p₁ shared nonce_size pico_size sealed₃ in
        record {
          first = header 0x08 72 ++ hs1;
          second = frame 0x09 blob₂;
          packet = packet;
          third = header 0x0A 80 ++ hs3;
          host_waiting = h₁;
          sender_waiting = p₁;
          host_done = h₂;
          sender_done = record p₁ { saved_pico_nonce = zeros 8; auth_led = true };
          asks =
              start_handshake-asked sst now nonce hs1 (wrote 7 ∷ wrote 80 ∷ rest) h made hs1_size
                writes;
          writes_first = refl;
          answers =
              drain-hs1 (length (be16 72 ++ hs1)) state hs1 p range hs1_size quick.sender_length
                (omega (arith, quick.sender_payload))
                (ap (λ (q : Pico d). next_byte q.uart) checked)
              ∙ ap (λ q. (0, q)) checked;
          sends_second = refl;
          finds = find_packet-arriving hunt 0x09 (drop 5 (frame 0x09 blob₂)) ps looking;
          checks =
              handle_hs2-closed m polls_ms sst blob₂ hs3 ps rest (take_input (packet ++ ps) h₁) refl
                size₂ bytes₂ quick.host_length quick.host_payload refl answer size₃ refl;
          writes_third = refl;
          leaves = refl;
          host_idle = refl;
          host_forgets = refl;
          accepts =
              drain-hs3 (length (be16 80 ++ hs3)) 0 hs3 p₁ (omega arith) size₃ quick.sender_length
                quick.sender_payload (ap (λ (q : Pico d). next_byte q.uart) accepted)
              ∙ ap (λ q. (0, q)) accepted;
          lit = refl;
          sender_forgets = refl;
        }
