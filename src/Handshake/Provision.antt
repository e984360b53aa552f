-- ===== src/Handshake/Provision.antt =====
-- A key that the host provisions.
use lifi_auth.Common.{
  ℕ, ◌+◌, ◌≤◌, ◌<◌, ◌≡◌, refl, sym, ◌∙◌, ap, arith, some, List, [], ◌++◌, length, take_all,
}
use lifi_auth.Common.{u8, Option, subst}
use lifi_auth.Crypto.{Mbedtls, IsLawful}
use lifi_auth.Flash.{pico_write_key_to_slot, store_last_used_slot}
use lifi_auth.Flash.Device.{FlashDevice}
use lifi_auth.Flash.Slots.{IsKeyPair}
use lifi_auth.Flash.Store.{view}
use lifi_auth.Flash.Load.{view-write}
use lifi_auth.KeyRam.{keyram_set_with_id}
use lifi_auth.Nonce.{pico_nonce_on_key_change, pico_nonce_init}
use lifi_auth.Pico.{Env, Pico}
use lifi_auth.Uart.{Poll, uart_read_blocking_timeout}
use lifi_auth.Uart.Laws.{arriving, read-arriving}
use lifi_auth.Receiver.Laws.{arriving-append}
use lifi_auth.Commands.Coherent.{slot_of, active, slot-put_self, slot-store_last_used}
use lifi_auth.Handshake.{read_uart, handle_key, finish_key, provision, renew_nonce}

module _ (d : FlashDevice) (m : Mbedtls) (e : Env) where
  -- The key is in the current slot, in RAM and in the buffers of `main`, with its ID and its MAC
  -- key, and the nonces start again.
  pub record IsProvisioned (id key mac_key random : List ℕ) (p : Pico d) : Type 0 where
    pub stored : slot_of p.current_slot (view d m p.flash) ≡ some (id, key)
    pub ram : active p.keyram ≡ some (id, key)
    pub cipher : p.session_key ≡ key
    pub key_id : p.session_key_id ≡ id
    pub mac : p.session_mac_key ≡ mac_key
    pub nonce_salt : p.nonce.boot_salt ≡ random
    pub nonce_counter : p.nonce.msg_counter ≡ 0

  pub read_uart-arriving :
      (n us : ℕ) (bs more : List ℕ) (p : Pico d) (ps : List Poll)
      → length bs ≡ n
      → n ≤ e.polls us
      → read_uart d m e n us (record p { uart = arriving (bs ++ more) ++ ps })
        ≡ (some bs, record p { uart = arriving more ++ ps })
  unfolding read_uart
  read_uart-arriving n us bs more p ps h k =
      let read : uart_read_blocking_timeout (e.polls us) n (arriving (bs ++ more) ++ ps)
          ≡ (some bs, arriving more ++ ps) =
        rw (arriving-append bs more ps, ← h)
          (read-arriving (e.polls us) bs (arriving more ++ ps) (omega (arith, h))) in
      ap (λ (r : Option (List ℕ) × List Poll). (r.0, record p { uart = r.1 })) read

  pub handle_key-arriving :
      (len id key mac_key : List ℕ) (p : Pico d) (ps : List Poll)
      → length len ≡ 2
      → length id ≡ 8
      → length key ≡ 16
      → length mac_key ≡ 32
      → 32 ≤ e.polls 100000
      → handle_key d m e
          (record p { uart = arriving (len ++ (id ++ (key ++ (mac_key ++ [])))) ++ ps })
        ≡ provision d m e id key mac_key (record p { uart = ps })
  unfolding handle_key finish_key
  handle_key-arriving len id key mac_key p ps a b c f fast =
      rw
        (
          read_uart-arriving 2 100000 len (id ++ (key ++ (mac_key ++ []))) p ps a
              (omega (arith, fast)),
          read_uart-arriving 8 100000 id (key ++ (mac_key ++ [])) p ps b (omega (arith, fast)),
          read_uart-arriving 16 100000 key (mac_key ++ []) p ps c (omega (arith, fast)),
          read_uart-arriving 32 100000 mac_key [] p ps f fast,
        )
        refl

  module _ (lawful : IsLawful m) where
    pub provision-IsProvisioned :
        (id key mac_key random : List ℕ) (p : Pico d)
        → IsKeyPair id key
        → p.current_slot < 2
        → e.drbg p.draws 8 ≡ some random
        → IsProvisioned id key mac_key random (provision d m e id key mac_key p)
    unfolding provision renew_nonce pico_nonce_on_key_change pico_nonce_init keyram_set_with_id
    provision-IsProvisioned id key mac_key random p pair range drawn =
        let (ok, wrote) = view-write d m lawful p.flash p.current_slot id key pair in
        let f' = (pico_write_key_to_slot d m p.flash p.current_slot id key).1 in
        let after : Pico d = record p {
          flash = store_last_used_slot d f' (u8 p.current_slot);
          keyram = keyram_set_with_id id key p.keyram;
          session_key = key;
          session_key_id = id;
          session_mac_key = mac_key;
          draws = p.draws + 1;
          nonce = pico_nonce_on_key_change random p.nonce;
        } in
        let same : provision d m e id key mac_key p ≡ after =
          rw (ok, drawn, provision, renew_nonce) refl in
        let kept : active (keyram_set_with_id id key p.keyram) ≡ some (id, key) =
          rw (take_all 8 id pair.id_size, take_all 16 key pair.key_size) refl in
        subst (IsProvisioned id key mac_key random) (sym same) (record {
          stored =
              slot-store_last_used d m e p.current_slot (u8 p.current_slot) f' (omega arith)
              ∙ ap (slot_of p.current_slot) wrote
              ∙ slot-put_self d m e p.current_slot (some (id, key)) (view d m p.flash);
          ram = kept;
          cipher = refl;
          key_id = refl;
          mac = refl;
          nonce_salt = refl;
          nonce_counter = refl;
        })

    -- A key frame that arrives without a pause, with an ID of 8 bytes, a key of 16 and a MAC key
    -- of 32, whatever its length field says: if the current slot is A or B, a read makes at least
    -- 32 polls in its time, and the generator works, then the key is in the current slot, in RAM
    -- and in use, with its ID and its MAC key, and the nonces start again with a new salt.
    pub handle_key-IsProvisioned :
        (len id key mac_key random : List ℕ) (p : Pico d) (ps : List Poll)
        → length len ≡ 2
        → IsKeyPair id key
        → length mac_key ≡ 32
        → 32 ≤ e.polls 100000
        → p.current_slot < 2
        → e.drbg p.draws 8 ≡ some random
        → IsProvisioned id key mac_key random (
            handle_key d m e
              (record p { uart = arriving (len ++ (id ++ (key ++ (mac_key ++ [])))) ++ ps }))
    handle_key-IsProvisioned len id key mac_key random p ps a pair f fast range drawn =
        subst (IsProvisioned id key mac_key random)
          (sym (handle_key-arriving len id key mac_key p ps a pair.id_size pair.key_size f fast))
          (provision-IsProvisioned id key mac_key random (record p { uart = ps }) pair range drawn)
