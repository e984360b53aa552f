-- ===== src/KeyRam.antt =====
-- The session key in RAM of src/pico_handler.c, and its helpers on key buffers.
use lifi_auth.Common.{ℕ, Bool, true, false, ◌&&◌, Option, some, none, List, ◌++◌, ◌==◌, take, zeros}
use lifi_auth.Common.{drop, if◌then◌else◌, zero, suc, get_or}

-- `g_session_key`, `g_session_key_id` and `g_key_valid`.
pub record KeyRam : Type 0 where
  pub session_key : List ℕ
  pub session_key_id : List ℕ
  pub key_valid : Bool

-- `secure_zero(p, n)` on the first `n` bytes of a buffer.
unfoldable pub secure_zero : List ℕ → ℕ → List ℕ
secure_zero buf n = zeros n ++ drop n buf

unfoldable pub zero_key : List ℕ → List ℕ
unfolding secure_zero
zero_key key = secure_zero key 16

-- The loop over the bytes that are left.
pub all_zero : ℕ → List ℕ → Bool
all_zero zero key = true
all_zero (suc left) key = (get_or key 0 0 == 0) && all_zero left (drop 1 key)

unfoldable pub is_key_zeroed : List ℕ → Bool
unfolding all_zero
is_key_zeroed key = all_zero 16 key

unfoldable pub keyram_valid : KeyRam → Bool
keyram_valid r = r.key_valid

unfoldable pub keyram_set : List ℕ → KeyRam → KeyRam
keyram_set k r = record r { session_key = take 16 k; key_valid = true }

unfoldable pub keyram_set_with_id : List ℕ → List ℕ → KeyRam → KeyRam
keyram_set_with_id id k r = record r {
  session_key_id = take 8 id;
  session_key = take 16 k;
  key_valid = true;
}

unfoldable pub keyram_get : KeyRam → Option (List ℕ)
keyram_get r = if r.key_valid then some r.session_key else none

-- The ID stays behind.
unfoldable pub keyram_clear : KeyRam → KeyRam
keyram_clear r = record r { session_key = zeros 16; key_valid = false }
