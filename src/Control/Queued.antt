-- ===== src/Control/Queued.antt =====
-- receiver/src/dash_receiver.c: how the main loop takes a request of the dashboard for a key that is
-- pressed, and its round with that.
use lifi_auth.Common.{ℕ, Option, some, none, List, if◌then◌else◌}
use lifi_auth.Crypto.{Mbedtls}
use lifi_auth.Host.{Host, Sst}
use lifi_auth.Host.Keyboard.{Key, force, reconnect, other}
use lifi_auth.Host.Step.{host_step}
use lifi_auth.Uart.{Poll}
use lifi_auth.Control.{Shared, baud_is_sane}

-- The key of this round, if one was pressed. `port` is the input of the port, if it opens again.
unfoldable pub take_request : Option (List Poll) → Option Key → Shared → Option Key × Shared
take_request port (some key) s = (some key, s)
take_request port none s = elim s.force_request [
  | some request ↦ (some (force request), record s { force_request = none })
  | none ↦ elim s.baud_request [
    | none ↦ (none, s)
    | some baud ↦
        if baud_is_sane baud
        then (some (reconnect port), record s { current_baud = baud; baud_request = none })
        else (none, record s { baud_request = none })
  ]
]

-- A round of the loop. With no key at all, the keyboard does nothing.
unfoldable pub loop_step :
    Mbedtls
    → (ℕ → ℕ)
    → Sst
    → ℕ
    → ℕ
    → List ℕ
    → Option (List Poll)
    → Option Key
    → Shared
    → Host
    → Option Host × Shared
loop_step m polls_ms sst now wall stack port pressed s h =
    let (key, s') = take_request port pressed s in
    (host_step m polls_ms sst now wall stack (elim key [ some k ↦ k | none ↦ other ]) h, s')
