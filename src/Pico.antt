-- ===== src/Pico.antt =====
-- The state of the firmware: what src/pico_handler.c keeps in flash and RAM, and the variables
-- of `main` in sender/src/lifi_session_sender.c.
use lifi_auth.Common.{ℕ, Bool, Option, List, true, map, ◌∷◌, []}
use lifi_auth.Common.{bit_and, ◌^◌, ◌==◌, not}
use lifi_auth.Nonce.{NonceState}
use lifi_auth.KeyRam.{KeyRam}
use lifi_auth.Flash.Device.{FlashDevice}
use lifi_auth.Uart.{Poll}

-- What the board decides: the words of `get_rand_32` and the results of the seeded generator
-- `mbedtls_ctr_drbg_random` (`none`: a failure), each by the number of the draw, and how many
-- polls a loop makes in so many microseconds.
pub record Env : Type 0 where
  pub rand_32 : ℕ → ℕ
  pub drbg : ℕ → ℕ → Option (List ℕ)
  pub polls : ℕ → ℕ

pub record Pico (d : FlashDevice) : Type 0 where
  pub flash : d.Flash
  pub keyram : KeyRam
  pub nonce : NonceState
  pub session_key : List ℕ
  pub session_mac_key : List ℕ
  pub session_key_id : List ℕ
  pub saved_pico_nonce : List ℕ
  pub current_slot : ℕ
  pub led_mask : ℕ
  pub led_pins : List Bool
  -- GP25, lit once the peer is authenticated.
  pub auth_led : Bool
  pub uart : List Poll
  -- The bytes sent over light, oldest first.
  pub lifi : List ℕ
  -- Draws made so far from `rand_32` and from `drbg`.
  pub words : ℕ
  pub draws : ℕ

-- Pin `i` is driven by the PIO, or held low: bit `i` of the mask.
abbrev pub pin_enabled : ℕ → ℕ → Bool
pin_enabled mask i = not (bit_and mask (2 ^ i) == 0)

module _ {d : FlashDevice} where
  unfoldable pub set_led_mask : ℕ → Pico d → Pico d
  set_led_mask mask p = record p {
    led_mask = mask;
    led_pins = map (pin_enabled mask) (0 ∷ 1 ∷ 2 ∷ 3 ∷ []);
  }

  -- The watchdog is asked for a reset; the code that follows the call still stands.
  unfoldable pub pico_reboot : Pico d → Pico d
  pico_reboot p = record p { nonce = record (p.nonce) { rebooting = true } }
