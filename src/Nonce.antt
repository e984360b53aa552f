-- ===== src/Nonce.antt =====
-- src/pico_handler.c and include/pico_handler.h: the 12-byte GCM nonces of the sender, a random
-- salt of 8 bytes and a 32-bit message counter.
pub mod Laws
use lifi_auth.Common.{ℕ, ◌+◌, ◌/◌, ◌^◌, u8, u32, Bool, ◌||◌, List, [], ◌∷◌, ◌++◌, ◌==◌}

-- `g_boot_salt` and `g_msg_counter`. `rebooting` says that `pico_reboot` has been called, which
-- asks the watchdog for a reset.
pub record NonceState : Type 0 where
  pub boot_salt : List ℕ
  pub msg_counter : ℕ
  pub rebooting : Bool

-- A 32-bit value, most significant byte first.
unfoldable pub store_be32 : ℕ → List ℕ
store_be32 v = u8 (v / 2 ^ 24) ∷ u8 (v / 2 ^ 16) ∷ u8 (v / 2 ^ 8) ∷ u8 v ∷ []

-- `pico_nonce_init`, and `pico_nonce_on_key_change`, which calls it; `random` is what
-- `get_random_bytes` fills the salt with.
unfoldable pub pico_nonce_init : List ℕ → NonceState → NonceState
pico_nonce_init random s = record s { boot_salt = random; msg_counter = 0 }

unfoldable pub pico_nonce_on_key_change : List ℕ → NonceState → NonceState
unfolding pico_nonce_init
pico_nonce_on_key_change random s = pico_nonce_init random s

-- The counter is read and incremented, a wrap to 0 asks for a reboot, and the nonce is built.
unfoldable pub pico_nonce_generate : NonceState → List ℕ × NonceState
unfolding store_be32
pico_nonce_generate s =
    let ctr = s.msg_counter in
    let next = u32 (ctr + 1) in
    (
      s.boot_salt ++ store_be32 ctr,
      record s { msg_counter = next; rebooting = s.rebooting || (next == 0) },
    )
