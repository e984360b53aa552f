-- ===== src/Tests/Store.antt =====
-- The theorems on keys, slots and commands at concrete inputs.
use lifi_auth.Common.{ℕ, ◌≡◌, refl, arith, true, ◌||◌, none, some, [], ◌∷◌, ◌++◌, List, codes}
use lifi_auth.Common.{zeros, if◌then◌else◌, ◌==◌, length, ◌%◌, ◌-◌, ◌+◌, ◌≤◌, replicate, bytes_eq}
use lifi_auth.Crypto.{sst_aes_128_cbc_encrypt_pkcs7, sst_aes_128_cbc_decrypt}
use lifi_auth.Crypto.Laws.{cbc_decrypt-encrypt}
use lifi_auth.Flash.{
  pico_clear_slot_verify, erase_all_key_slots, store_last_used_slot, pico_write_key_to_slot,
}
use lifi_auth.Flash.{read_key_from_slot, validate_flash_block, read_bytes}
use lifi_auth.Flash.{store_session_key, load_session_key}
use lifi_auth.Flash.Device.{sim_flash}
use lifi_auth.Flash.Slots.{IsKeyPair}
use lifi_auth.Flash.Store.{view, put_slot, view-clear_verify, view-erase_all, view-store_last_used}
use lifi_auth.Flash.Load.{free_slot, loaded_after, view-write, load-store}
use lifi_auth.Commands.{handle_commands, install_key, manual_id}
use lifi_auth.Commands.Hex.{to_hex, blanks, handle_commands-key}
use lifi_auth.Commands.Coherent.{IsCoherent}
use lifi_auth.Commands.Sound.{IsSound, handle_commands-IsSound}
use lifi_auth.Tests.Platform.{
  clear_text, clear_text-IsLawful, fast_env, id_1, key_1, erased, fresh_pico,
}

pair_1-IsKeyPair : IsKeyPair id_1 key_1
pair_1-IsKeyPair = record {
  id_size = refl;
  key_size = refl;
  id_bytes = omega arith;
  key_bytes = omega arith;
}

abbrev note : List ℕ
note = 104 ∷ 105 ∷ []

view-clear_verify_example :
    ((pico_clear_slot_verify sim_flash erased 1).0 ≡ ((1 == 0) || (1 == 1)))
    × (view sim_flash clear_text (pico_clear_slot_verify sim_flash erased 1).1 ≡ (
        if (1 == 0) || (1 == 1)
        then put_slot 1 none (view sim_flash clear_text erased)
        else view sim_flash clear_text erased))
view-clear_verify_example = view-clear_verify sim_flash clear_text erased 1

view-erase_all_example :
    view sim_flash clear_text (erase_all_key_slots sim_flash erased).1 ≡ record {
      slot_a = none;
      slot_b = none;
      last_used = (view sim_flash clear_text erased).last_used;
    }
view-erase_all_example = view-erase_all sim_flash clear_text erased

view-store_last_used_example :
    view sim_flash clear_text (store_last_used_slot sim_flash erased 1)
    ≡ record (view sim_flash clear_text erased) {
      last_used = if (1 == 0) || (1 == 1) then some 1 else none;
    }
view-store_last_used_example = view-store_last_used sim_flash clear_text erased 1 (omega arith)

view-write_example :
    ((pico_write_key_to_slot sim_flash clear_text erased 1 id_1 key_1).0 ≡ true)
    × (view sim_flash clear_text (pico_write_key_to_slot sim_flash clear_text erased 1 id_1 key_1).1
        ≡ put_slot 1 (some (id_1, key_1)) (view sim_flash clear_text erased))
view-write_example =
    view-write sim_flash clear_text clear_text-IsLawful erased 1 id_1 key_1 pair_1-IsKeyPair

load-store_example :
    (view sim_flash clear_text (store_session_key sim_flash clear_text erased id_1 key_1).1
      ≡ put_slot
          (free_slot (view sim_flash clear_text erased).slot_a)
          (some (id_1, key_1))
          (view sim_flash clear_text erased))
    × (load_session_key sim_flash clear_text
          (store_session_key sim_flash clear_text erased id_1 key_1).1
        ≡ loaded_after
            (id_1, key_1)
            (view sim_flash clear_text erased).slot_a
            (view sim_flash clear_text erased).slot_b)
load-store_example =
    load-store sim_flash clear_text clear_text-IsLawful erased id_1 key_1 pair_1-IsKeyPair

handle_commands-key_example :
    handle_commands sim_flash clear_text fast_env
      (codes " key " ++ blanks 2 (to_hex true key_1 ++ []))
      fresh_pico
    ≡ install_key sim_flash clear_text fast_env manual_id key_1 fresh_pico
handle_commands-key_example =
    handle_commands-key sim_flash clear_text fast_env 2 true key_1 [] fresh_pico (omega arith) refl

fresh_pico-IsCoherent : IsCoherent sim_flash clear_text fast_env fresh_pico
unfolding view bytes_eq read_key_from_slot validate_flash_block read_bytes
fresh_pico-IsCoherent = record { slot_range = omega arith; ram = refl; buffer = refl }

handle_commands-IsSound_example :
    IsSound sim_flash clear_text fast_env fresh_pico
      (handle_commands sim_flash clear_text fast_env (codes " clear slot A") fresh_pico)
handle_commands-IsSound_example =
    handle_commands-IsSound sim_flash clear_text fast_env clear_text-IsLawful
      (codes " clear slot A") fresh_pico tt fresh_pico-IsCoherent

cbc_decrypt-encrypt_example :
    (sst_aes_128_cbc_decrypt clear_text key_1 (zeros 16) (note ++ replicate 14 14)
      ≡ some (note ++ replicate (16 - length note % 16) (16 - length note % 16)))
    × (length (note ++ replicate 14 14) % 16 ≡ 0)
    × (length note + 1 ≤ length (note ++ replicate 14 14))
    × (length (note ++ replicate 14 14) ≤ length note + 16)
cbc_decrypt-encrypt_example =
    cbc_decrypt-encrypt clear_text clear_text-IsLawful key_1 (zeros 16) note
      (note ++ replicate 14 14) (unfold sst_aes_128_cbc_encrypt_pkcs7 in refl)
