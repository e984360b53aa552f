-- ===== src/Tests/Manager.antt =====
-- The theorems on the key manager, at concrete inputs.
use lifi_auth.Common.{
  ℕ, suc, ◌≡◌, refl, arith, true, Option, some, none, List, [], ◌∷◌, ◌++◌, take, drop, replicate,
}
use lifi_auth.Flash.Device.{sim_flash}
use lifi_auth.Handshake.{provision}
use lifi_auth.Handshake.Drain.{drain}
use lifi_auth.Host.{SessionKey, WriteResult, wrote, Sst}
use lifi_auth.Host.Port.{write_all}
use lifi_auth.KeyManager.{
  KeyManager, Shortcut, rotate, force, clear, reconnect, no_keys, start, handle_shortcut, press_all,
}
use lifi_auth.KeyManager.{write_parts, send_session_key, next_key, use_keys, fetch_keys}
use lifi_auth.KeyManager.Current.{IsCurrent, press_all-IsCurrent}
use lifi_auth.KeyManager.Mismatch.{drain-send_session_key}
use lifi_auth.Uart.Laws.{arriving}
use lifi_auth.Tests.Platform.{clear_text, fast_env, id_1, key_1, fresh_pico}
use lifi_auth.Tests.Exchange.{clear_sst}

abbrev key_a : SessionKey
key_a = record { key_id = id_1; cipher_key = key_1 ++ key_1; mac_key = replicate 32 9 }

abbrev key_b : SessionKey
key_b = record { key_id = replicate 8 2; cipher_key = replicate 32 3; mac_key = replicate 32 4 }

abbrev two_keys : Sst
two_keys = record clear_sst { get_session_key = λ n. some (key_a ∷ key_b ∷ []) }

abbrev pressed : List Shortcut
pressed = rotate ∷ clear ∷ force ∷ reconnect true ∷ rotate ∷ rotate ∷ []

abbrev writes : List WriteResult
writes = wrote 7 ∷ wrote 8 ∷ wrote 32 ∷ wrote 32 ∷ []

abbrev manager : KeyManager
manager = record (no_keys true writes) {
  key_list = key_a ∷ key_b ∷ [];
  s_key = key_a;
  key_valid = true;
}

abbrev reached : Option KeyManager → KeyManager
reached none = manager
reached (some p) = p

abbrev now_reached : KeyManager
now_reached = reached (press_all two_keys pressed (start two_keys true writes))

press_all-IsCurrent_example : IsCurrent now_reached
unfolding press_all handle_shortcut next_key fetch_keys use_keys start send_session_key write_parts
    write_all
press_all-IsCurrent_example = press_all-IsCurrent two_keys true writes pressed now_reached refl

told : (send_session_key manager).0 ≡ true
unfolding send_session_key write_parts write_all
told = refl

drain-send_session_key_example :
    (bytes : List ℕ) × ((send_session_key manager).1.sent ≡ manager.sent ++ bytes)
    × (drain sim_flash clear_text fast_env
          (suc (suc (suc (suc (suc 20)))))
          2
          (record fresh_pico { uart = arriving bytes ++ [] })
        ≡ drain sim_flash clear_text fast_env 20 0 (
            provision sim_flash clear_text fast_env id_1
              (take 16 (key_1 ++ key_1))
              (drop 16 (key_1 ++ key_1) ++ take 16 (replicate 32 9))
              (record fresh_pico { uart = arriving (drop 16 (replicate 32 9)) ++ [] })))
drain-send_session_key_example =
    drain-send_session_key sim_flash clear_text fast_env manager 2 20 fresh_pico told refl refl refl
      (omega arith) (omega arith)
