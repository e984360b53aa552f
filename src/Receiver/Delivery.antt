-- ===== src/Receiver/Delivery.antt =====
-- From the sender's line to the receiver's plain text.
use lifi_auth.Common.{u64}
use lifi_auth.Common.{ℕ, ◌+◌, ◌≤◌, ◌<◌, ◌≡◌, sym, arith, true, false, some, List, ◌++◌, All, IsByte}
use lifi_auth.Common.{length, take, drop, All-append, ◌∙◌, ap, subst}
use lifi_auth.Crypto.{Mbedtls, IsLawful, sst_encrypt_gcm}
use lifi_auth.Crypto.Laws.{gcm_decrypt-encrypt, gcm_encrypt-bytes, gcm_decrypt-take}
use lifi_auth.Flash.Device.{FlashDevice}
use lifi_auth.KeyRam.{is_key_zeroed}
use lifi_auth.Nonce.{NonceState, pico_nonce_generate, store_be32}
use lifi_auth.Pico.{Pico}
use lifi_auth.ReplayWindow.{replay_window_seen, replay_window_add}
use lifi_auth.Sender.{send_text}
use lifi_auth.Sender.Laws.{frame, nonce-size, send_text-sent}
use lifi_auth.Uart.{Poll}
use lifi_auth.Uart.Laws.{arriving}
use lifi_auth.Receiver.{Receiver, text, find_packet, receive_packet}
use lifi_auth.Receiver.Laws.{IsFast, find_packet-arriving, receive_packet-text}

nonce-bytes : (s : NonceState) → All IsByte s.boot_salt → All IsByte (pico_nonce_generate s).0
unfolding pico_nonce_generate store_be32
nonce-bytes s h = All-append IsByte s.boot_salt _ h (omega arith)

module _ {d : FlashDevice} (m : Mbedtls) (lawful : IsLawful m) (polls_ms : ℕ → ℕ) where
  -- What the sender and the receiver need for a message to come through.
  pub record IsLinked (message : List ℕ) (p : Pico d) (r : Receiver) : Type 0 where
    pub room : length message + 28 ≤ 8192
    pub fast : IsFast polls_ms (length message)
    pub salt_size : length p.nonce.boot_salt ≡ 8
    pub salt_bytes : All IsByte p.nonce.boot_salt
    pub usable : is_key_zeroed p.session_key ≡ false
    pub valid : r.key_valid ≡ true
    pub same_key : take 16 r.cipher_key ≡ take 16 p.session_key
    pub fresh : replay_window_seen r.rwin (pico_nonce_generate p.nonce).0 ≡ false

  -- A sender and a receiver that share a usable key, a nonce that the receiver's window does not
  -- have, a message of at most 8164 bytes that is encrypted without an error, and reads that are
  -- fast enough: the sender puts some bytes behind those already sent, the receiver finds a
  -- packet of the message's type in those bytes in every state of its search, and from the input
  -- behind that it delivers the message, counts it, keeps the nonce, and leaves all that follows.
  pub receive-send :
      (message c tag : List ℕ) (type state : ℕ) (p : Pico d) (r : Receiver) (ps : List Poll)
      → IsLinked message p r
      → type < 256
      → state < 4
      → sst_encrypt_gcm m p.session_key (pico_nonce_generate p.nonce).0 message ≡ some (c, tag)
      → (bytes rest : List ℕ) × ((send_text m message type p).lifi ≡ p.lifi ++ bytes)
        × (find_packet state (arriving bytes ++ ps) ≡ some (type, arriving rest ++ ps))
        × (receive_packet m polls_ms type (record r { input = arriving rest ++ ps }) ≡ (
          text type message,
          record r {
            rwin = replay_window_add r.rwin (pico_nonce_generate p.nonce).0;
            input = ps;
            stats = record (r.stats) {
              total_pkts = u64 (r.stats.total_pkts + 1);
              decrypt_success = u64 (r.stats.decrypt_success + 1);
            };
          },
        ))
  receive-send message c tag type state p r ps h byte range made =
      let nonce : List ℕ = (pico_nonce_generate p.nonce).0 in
      let bytes : List ℕ = frame type (nonce ++ (c ++ tag)) in
      let (opened, size, tag_size) =
        gcm_decrypt-encrypt m lawful p.session_key nonce message c tag made in
      let (c_bytes, tag_bytes) =
        gcm_encrypt-bytes m lawful p.session_key nonce message c tag made in
      let all : All IsByte (nonce ++ (c ++ tag)) =
        All-append IsByte nonce (c ++ tag) (nonce-bytes p.nonce h.salt_bytes)
          (All-append IsByte c tag c_bytes tag_bytes) in
      (
        bytes,
        drop 5 bytes,
        ap (λ (q : Pico d). q.lifi)
            (send_text-sent m lawful message type p c tag (omega (arith, h.room)) h.usable
              h.salt_size made),
        find_packet-arriving state type (drop 5 bytes) ps range,
        receive_packet-text m polls_ms type nonce c tag message r ps byte all
            (nonce-size p.nonce h.salt_size) tag_size (omega (arith, size, h.room))
            (subst (IsFast polls_ms) (sym size) h.fast) h.fresh h.valid
            (gcm_decrypt-take m lawful r.cipher_key p.session_key nonce c tag h.same_key ∙ opened),
      )
