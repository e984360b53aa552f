-- ===== src/Tests/Exchange.antt =====
-- A library SST over the cryptography that leaves texts readable.
use lifi_auth.Common.{ℕ, zero, suc, ◌+◌, ◌-◌, ◌%◌, ◌<◌, ◌≡◌, refl, sym, ap, subst, ◌∙◌, arith, true}
use lifi_auth.Common.{
  some, none, List, [], ◌∷◌, ◌++◌, length, take, slice, replicate, zeros, All, IsByte, u8,
}
use lifi_auth.Common.{if_some, some_eq, drop-append_past, take-append, append_assoc, length-append}
use lifi_auth.Crypto.{sst_aes_128_cbc_encrypt_pkcs7, sst_hmac_sha256_ex}
use lifi_auth.Host.{Sst, SessionKey}
use lifi_auth.Mutual.{IsSealed, IsSstLawful, IsWorking}
use lifi_auth.Tests.Platform.{clear_text, all_bytes, total, id_1, key_1}

all_bytes-append :
    (xs ys : List ℕ) → all_bytes xs ≡ true → all_bytes ys ≡ true → all_bytes (xs ++ ys) ≡ true
all_bytes-append [] ys h k = k
all_bytes-append (x ∷ xs) ys h k = ground (arith, all_bytes-append xs ys)

all_bytes-front : (xs ys : List ℕ) → all_bytes (xs ++ ys) ≡ true → all_bytes xs ≡ true
all_bytes-front [] ys h = refl
all_bytes-front (x ∷ xs) ys h = ground (arith, all_bytes-front xs ys)

all_bytes-back : (xs ys : List ℕ) → all_bytes (xs ++ ys) ≡ true → all_bytes ys ≡ true
all_bytes-back [] ys h = h
all_bytes-back (x ∷ xs) ys h = all_bytes-back xs ys (ground arith)

all_bytes-replicate : (n b : ℕ) → b < 256 → all_bytes (replicate n b) ≡ true
all_bytes-replicate zero b h = refl
all_bytes-replicate (suc n) b h = ground (arith, all_bytes-replicate n b h)

All-all_bytes : (bs : List ℕ) → All IsByte bs → all_bytes bs ≡ true
All-all_bytes [] h = refl
All-all_bytes (b ∷ bs) h = ground (arith, h.0, All-all_bytes bs h.1)

abbrev padded : ℕ → List ℕ → List ℕ
padded pad text = text ++ replicate pad pad

abbrev seal : List ℕ → ℕ → List ℕ → List ℕ
seal mac_key pad text =
    zeros 16
    ++ (padded pad text
        ++ replicate 32 (u8 (total (take 32 mac_key) + total (zeros 16 ++ padded pad text))))

encrypts-clear :
    (key iv text : List ℕ) (pad : ℕ)
    → 16 - length text % 16 ≡ pad
    → all_bytes text ≡ true
    → sst_aes_128_cbc_encrypt_pkcs7 clear_text key iv text ≡ some (padded pad text)
unfolding sst_aes_128_cbc_encrypt_pkcs7
encrypts-clear key iv text pad rest ok =
    rw
      (
        rest,
        all_bytes-append text (replicate pad pad) ok
            (all_bytes-replicate pad pad (omega (arith, rest))),
      )
      refl

seal-IsSealed :
    (key mac_key text : List ℕ) (pad : ℕ)
    → 16 - length text % 16 ≡ pad
    → all_bytes text ≡ true
    → IsSealed clear_text key mac_key text (seal mac_key pad text)
unfolding sst_hmac_sha256_ex
seal-IsSealed key mac_key text pad rest ok = record {
  iv = zeros 16;
  c = padded pad text;
  mac = replicate 32 (u8 (total (take 32 mac_key) + total (zeros 16 ++ padded pad text)));
  iv_size = refl;
  iv_bytes = omega arith;
  made = encrypts-clear key (zeros 16) text pad rest ok;
  code = refl;
  laid = refl;
}

-- The nonce of the sender is read where it stands in the second message.
abbrev answer : List ℕ → List ℕ → SessionKey → List ℕ
answer payload nonce k = seal k.mac_key 15 (3 ∷ (nonce ++ slice 17 8 payload))

abbrev pub clear_sst : Sst
clear_sst = record {
  get_session_key =
      λ n. some (record { key_id = id_1; cipher_key = key_1; mac_key = replicate 32 9 } ∷ []);
  get_session_key_by_id = λ n id. none;
  parse_handshake_1 = λ n k. some (id_1, take 8 k.key_id ++ seal k.mac_key 7 (1 ∷ id_1));
  check_handshake_2_send_handshake_3 = λ n payload nonce k. some (answer payload nonce k);
}

echoed :
    (k : SessionKey) (pico_nonce nonce hs2 : List ℕ)
    → length pico_nonce ≡ 8
    → length nonce ≡ 8
    → IsSealed clear_text k.cipher_key k.mac_key (2 ∷ (pico_nonce ++ nonce)) hs2
    → (slice 17 8 hs2 ≡ pico_nonce) × (all_bytes (3 ∷ (nonce ++ pico_nonce)) ≡ true)
unfolding sst_aes_128_cbc_encrypt_pkcs7
echoed k pico_nonce nonce hs2 a b s =
    let text : List ℕ = 2 ∷ (pico_nonce ++ nonce) in
    let pad : ℕ = 16 - length text % 16 in
    let (ok, same) = if_some (all_bytes (padded pad text)) (some (padded pad text)) s.c s.made in
    let c_same : padded pad text ≡ s.c = some_eq same in
    let shape : hs2 ≡ s.iv ++ (2 ∷ (pico_nonce ++ (nonce ++ (replicate pad pad ++ s.mac)))) =
      s.laid
      ∙ ap (λ c. s.iv ++ (c ++ s.mac)) (sym c_same)
      ∙ ap (λ t. s.iv ++ (2 ∷ t))
          (append_assoc (pico_nonce ++ nonce) (replicate pad pad) s.mac
            ∙ append_assoc pico_nonce nonce (replicate pad pad ++ s.mac)) in
    let bytes : all_bytes (pico_nonce ++ nonce) ≡ true =
      all_bytes-front (pico_nonce ++ nonce) (replicate pad pad) ok in
    (
      rw shape (
          ap (take 8) (
            drop-append_past 17 16 1 s.iv
              (2 ∷ (pico_nonce ++ (nonce ++ (replicate pad pad ++ s.mac)))) refl s.iv_size)
          ∙ take-append 8 pico_nonce _ a),
      all_bytes-append nonce pico_nonce (all_bytes-back pico_nonce nonce bytes)
          (all_bytes-front pico_nonce nonce bytes),
    )

pub clear_sst-IsSstLawful : IsSstLawful clear_text clear_sst
clear_sst-IsSstLawful = record {
  first = λ n k nonce hs1 made.
      subst
        (λ (r : List ℕ × List ℕ).
          (length r.0 ≡ 8)
          × All IsByte r.0
          × ((blob : List ℕ) × (r.1 ≡ take 8 k.key_id ++ blob)
              × IsSealed clear_text k.cipher_key k.mac_key (1 ∷ r.0) blob))
        (some_eq made)
        (
          refl,
          omega arith,
          (
            seal k.mac_key 7 (1 ∷ id_1),
            refl,
            seal-IsSealed k.cipher_key k.mac_key (1 ∷ id_1) 7 refl refl,
          ),
        );
  third = λ n k pico_nonce nonce hs2 a b s.
      let (found, bytes) = echoed k pico_nonce nonce hs2 a b s in
      let text : List ℕ = 3 ∷ (nonce ++ pico_nonce) in
      let size : length text ≡ 17 = omega (arith, length-append nonce pico_nonce, a, b) in
      (
        answer hs2 nonce k,
        refl,
        subst
            (λ t.
              IsSealed clear_text k.cipher_key k.mac_key text
                (seal k.mac_key 15 (3 ∷ (nonce ++ t))))
            (sym found) (seal-IsSealed k.cipher_key k.mac_key text 15 (rw size refl) bytes),
      );
}

pub clear_text-IsWorking : IsWorking clear_text
unfolding sst_hmac_sha256_ex
clear_text-IsWorking = record {
  encrypts = λ key iv text bytes. (
    padded (16 - length text % 16) text,
    encrypts-clear key iv text (16 - length text % 16) refl (All-all_bytes text bytes),
  );
  codes = λ key text. (replicate 32 (u8 (total (take 32 key) + total text)), refl);
}
