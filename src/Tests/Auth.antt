-- ===== src/Tests/Auth.antt =====
-- The theorems on frames of the host, at concrete inputs.
use lifi_auth.Common.{ℕ, ◌++◌, refl, arith, List, [], ◌∷◌, zeros, replicate, be16}
use lifi_auth.Flash.Device.{sim_flash}
use lifi_auth.Flash.Slots.{IsKeyPair}
use lifi_auth.Handshake.{handle_key}
use lifi_auth.Handshake.Provision.{IsProvisioned, handle_key-IsProvisioned}
use lifi_auth.Pico.{Pico}
use lifi_auth.Uart.Laws.{arriving}
use lifi_auth.Tests.Platform.{clear_text, clear_text-IsLawful, fast_env, id_1, key_1, fresh_pico}

-- Step 3 of the handshake: an IV, a text that echoes `id_1`, and its code.
abbrev answer : List ℕ
answer = zeros 16 ++ ((3 ∷ (zeros 8 ++ (id_1 ++ replicate 15 15))) ++ replicate 32 8)

abbrev waiting : Pico sim_flash
waiting = record fresh_pico { saved_pico_nonce = id_1; uart = arriving (be16 80 ++ answer) }

pair : IsKeyPair id_1 key_1
pair = record { id_size = refl; key_size = refl; id_bytes = omega arith; key_bytes = omega arith }

handle_key-IsProvisioned_example :
    IsProvisioned sim_flash clear_text fast_env id_1 key_1 (replicate 32 9) (replicate 8 0) (
      handle_key sim_flash clear_text fast_env (record fresh_pico {
        uart = arriving (be16 56 ++ (id_1 ++ (key_1 ++ (replicate 32 9 ++ [])))) ++ [];
      }))
handle_key-IsProvisioned_example =
    handle_key-IsProvisioned sim_flash clear_text fast_env clear_text-IsLawful (be16 56) id_1 key_1
      (replicate 32 9) (replicate 8 0) fresh_pico [] refl pair refl (omega arith) (omega arith) refl
