-- ===== src/Handshake/Drain.antt =====
-- sender/src/lifi_session_sender.c: the loop of `main` that drains the UART, round after round.
pub mod Ends
pub mod Link
use lifi_auth.Common.{ℕ, zero, suc, Option, some, none, List, [], ◌∷◌}
use lifi_auth.Crypto.{Mbedtls}
use lifi_auth.Flash.Device.{FlashDevice}
use lifi_auth.Pico.{Env, Pico}
use lifi_auth.Uart.{Poll, idle, ready}
use lifi_auth.Handshake.{take_byte}

-- `uart_is_readable`, and then `uart_getc`.
unfoldable pub next_byte : List Poll → Option (ℕ × List Poll)
next_byte [] = none
next_byte (idle ∷ ps) = none
next_byte (ready b ∷ ps) = some (b, ps)

module _ (d : FlashDevice) (m : Mbedtls) (e : Env) where
  -- The loop, with a bound on its rounds, from a value of `challenge_state` on.
  unfoldable pub drain : ℕ → ℕ → Pico d → ℕ × Pico d
  drain zero state p = (state, p)
  drain (suc fuel) state p = elim (next_byte p.uart) [
    | none ↦ (state, p)
    | some (byte, rest) ↦
        let next = take_byte d m e state byte (record p { uart = rest }) in drain fuel next.0 next.1
  ]
