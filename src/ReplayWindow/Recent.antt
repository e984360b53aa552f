-- ===== src/ReplayWindow/Recent.antt =====
-- The abstract view of a window: the nonces that it remembers, the newest first.
use lifi_auth.Common.{ℕ, ◌≤◌, ◌<◌, ◌≡◌, Bool, false}
use lifi_auth.Common.{◌||◌, List, [], ◌∷◌, ◌++◌, All, length, take, drop}
use lifi_auth.Common.{bytes_eq}
use mathlib.Core.List.{reverse}
use lifi_auth.ReplayWindow.{Window}

abbrev pub nonce_bytes : ℕ
nonce_bytes = 12

abbrev pub IsNonce : List ℕ → Type 0
IsNonce n = length n ≡ nonce_bytes

-- What `replay_window_init` sets up and `replay_window_add` keeps.
pub record IsValid (w : Window) : Type 0 where
  pub size : w.nonce_size ≡ nonce_bytes
  pub fits : w.cap ≤ length w.buf
  pub inside : w.idx < w.cap
  pub rows : All IsNonce w.buf

unfoldable pub contains : List (List ℕ) → List ℕ → Bool
contains [] n = false
contains (m ∷ ms) n = bytes_eq m n || contains ms n

-- The first `cap` rows from the one that is overwritten next, and the same backwards.
unfoldable pub oldest_first : Window → List (List ℕ)
oldest_first w = drop w.idx (take w.cap w.buf) ++ take w.idx (take w.cap w.buf)

unfoldable pub recent : Window → List (List ℕ)
unfolding oldest_first
recent w = reverse (oldest_first w)
