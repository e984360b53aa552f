-- ===== src/Tests/Platform.antt =====
-- A board with a flash that is a function, a cryptography that leaves texts readable, and a
-- UART with one poll to the microsecond. They meet what the theorems assume of the real ones.
use lifi_auth.Common.{ℕ, ◌+◌, ◌≡◌, refl, arith, Bool, true, false, ◌&&◌, some, none, List, []}
use lifi_auth.Common.{
  ◌∷◌, All, IsByte, length, zeros, replicate, ltb, if◌then◌else◌, bytes_eq, if_some, subst,
}
use lifi_auth.Common.{some_eq, u8}
use lifi_auth.Crypto.{Mbedtls, IsLawful}
use lifi_auth.Flash.Device.{sim_flash}
use lifi_auth.Pico.{Env, Pico}

abbrev pub all_bytes : List ℕ → Bool
all_bytes [] = true
all_bytes (b ∷ bs) = ltb b 256 && all_bytes bs

pub all_bytes-All : (bs : List ℕ) → all_bytes bs ≡ true → All IsByte bs
all_bytes-All [] h = tt
all_bytes-All (b ∷ bs) h = (ground arith, all_bytes-All bs (ground arith))

-- The sum of the bytes, repeated: a digest that tells some texts apart.
abbrev pub total : List ℕ → ℕ
total [] = 0
total (b ∷ bs) = b + total bs

abbrev pub clear_text : Mbedtls
clear_text = record {
  has_sha256 = true;
  md_hmac = λ k t. some (replicate 32 (u8 (total k + total t)));
  sha256 = λ t. replicate 32 (u8 (total t));
  aes_setkey = λ k. true;
  cbc_encrypt = λ k iv t. if all_bytes t then some t else none;
  cbc_decrypt = λ k iv c. some c;
  gcm_setkey = λ k. true;
  gcm_crypt_and_tag = λ k n t. if all_bytes t then some (t, zeros 16) else none;
  gcm_auth_decrypt = λ k n c g. if bytes_eq g (zeros 16) then some c else none;
}

pub clear_text-IsLawful : IsLawful clear_text
unfolding bytes_eq
clear_text-IsLawful = record {
  sha256_size = λ t. (refl, omega arith);
  hmac_size =
      λ k t d h. subst (λ d. (length d ≡ 32) × All IsByte d) (some_eq h) (refl, omega arith);
  cbc_inverse = λ k iv t c h.
      let (ok, same) = if_some (all_bytes t) (some t) c h in
      subst (λ c. ((some c) ≡ some t) × (length c ≡ length t) × All IsByte c) (some_eq same)
        (refl, refl, all_bytes-All t ok);
  gcm_inverse = λ k n t c g h.
      let (ok, same) = if_some (all_bytes t) (some (t, zeros 16)) (c, g) h in
      subst
        (λ r.
          (if bytes_eq (r.1) (zeros 16) then some (r.0) else none) ≡ some t
          × length (r.0) ≡ length t
          × length (r.1) ≡ 16
          × All IsByte (r.0)
          × All IsByte (r.1))
        (some_eq same) (refl, refl, refl, all_bytes-All t ok, omega arith);
}

abbrev pub fast_env : Env
fast_env = record {
  rand_32 = λ k. k + 1;
  drbg = λ k n. some (replicate n (u8 k));
  polls = λ us. us;
}

abbrev pub id_1 : List ℕ
id_1 = 1 ∷ 2 ∷ 3 ∷ 4 ∷ 5 ∷ 6 ∷ 7 ∷ 8 ∷ []

abbrev pub key_1 : List ℕ
key_1 = 16 ∷ 15 ∷ 14 ∷ 13 ∷ 12 ∷ 11 ∷ 10 ∷ 9 ∷ 8 ∷ 7 ∷ 6 ∷ 5 ∷ 4 ∷ 3 ∷ 2 ∷ 255 ∷ []

abbrev pub erased : ℕ → ℕ
erased a = 0xFF

-- A fresh board: empty slots, no key.
abbrev pub fresh_pico : Pico sim_flash
fresh_pico = record {
  flash = erased;
  keyram = record { session_key = zeros 16; session_key_id = zeros 8; key_valid = false };
  nonce = record { boot_salt = zeros 8; msg_counter = 0; rebooting = false };
  session_key = zeros 16;
  session_mac_key = zeros 32;
  session_key_id = zeros 8;
  saved_pico_nonce = zeros 8;
  current_slot = 0;
  led_mask = 15;
  led_pins = true ∷ true ∷ true ∷ true ∷ [];
  auth_led = false;
  uart = [];
  lifi = [];
  words = 0;
  draws = 0;
}
