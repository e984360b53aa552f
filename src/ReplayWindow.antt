-- ===== src/ReplayWindow.antt =====
-- receiver/include/replay_window.h and receiver/src/replay_window.c: the ring of the nonces
-- that a receiver saw last.
pub mod Recent
pub mod Seen
pub mod Push
pub mod Laws
use lifi_auth.Common.{ℕ, zero, suc, ◌+◌, ◌%◌, Bool, true, false, ◌||◌, List, [], ◌∷◌, ◌++◌}
use lifi_auth.Common.{get_or, set, take, drop, zeros, bytes_eq}

-- `replay_window_t`; the rows of `buf` have 12 bytes each, and there are 64 of them.
pub record Window : Type 0 where
  pub buf : List (List ℕ)
  pub idx : ℕ
  pub nonce_size : ℕ
  pub cap : ℕ

-- The first `nonce_size` bytes of the first `cap` rows are zeroed.
pub zero_rows : ℕ → ℕ → List (List ℕ) → List (List ℕ)
zero_rows zero nonce_size rows = rows
zero_rows (suc left) nonce_size [] = []
zero_rows (suc left) nonce_size (r ∷ rs) =
    (zeros nonce_size ++ drop nonce_size r) ∷ zero_rows left nonce_size rs

-- The old contents of the buffer are an argument: C leaves what the loops do not reach.
unfoldable pub replay_window_init : List (List ℕ) → ℕ → ℕ → Window
unfolding zero_rows
replay_window_init old nonce_size cap = record {
  buf = zero_rows cap nonce_size old;
  idx = 0;
  nonce_size = nonce_size;
  cap = cap;
}

-- The loop of `replay_window_seen` over the rows that are left.
pub seen_rows : ℕ → List (List ℕ) → ℕ → List ℕ → Bool
seen_rows zero rows nonce_size n = false
seen_rows (suc left) [] nonce_size n = false
seen_rows (suc left) (r ∷ rs) nonce_size n =
    bytes_eq (take nonce_size r) (take nonce_size n) || seen_rows left rs nonce_size n

unfoldable pub replay_window_seen : Window → List ℕ → Bool
unfolding seen_rows
replay_window_seen w n = seen_rows w.cap w.buf w.nonce_size n

-- `memcpy` of `nonce_size` bytes over the row `idx`.
unfoldable pub replay_window_add : Window → List ℕ → Window
replay_window_add w n = record w {
  buf = set w.buf w.idx (take w.nonce_size n ++ drop w.nonce_size (get_or w.buf w.idx []));
  idx = (w.idx + 1) % w.cap;
}
