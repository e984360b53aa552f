-- ===== src/Control/Accepted.antt =====
-- Which signed requests are accepted.
use lifi_auth.Common.{
  ℕ, zero, suc, ◌≤◌, ◌≡◌, refl, sym, ◌∙◌, ap, arith, Bool, true, false, Option, some, none,
}
use lifi_auth.Common.{List, ◌∷◌, codes, length, take, drop, ltb, ◌==◌, ◌&&◌}
use lifi_auth.Common.{bytes_eq, bytes_eq_sound, Bool-cases, Option-cases, inl, inr, u8, some_eq}
use lifi_auth.Crypto.{Mbedtls, sst_hmac_sha256_ex}
use lifi_auth.ReplayWindow.{Window, replay_window_seen, replay_window_add}
use lifi_auth.Control.{ReporterKey}
use lifi_auth.Control.Text.{decode_hex, scan_02x, strtoll10}
use lifi_auth.Control.Signed.{
  extract_header, skew, signed_text, check_signed, check_headers, verify_signed_request,
}

pub decode_hex-size : (n : ℕ) (s bs : List ℕ) → decode_hex n s ≡ some bs → length bs ≡ n
unfolding decode_hex
decode_hex-size zero s bs h = ap length (sym (some_eq h))
decode_hex-size (suc n) s bs h = elim (Option-cases (scan_02x s)) [
  | inl failed ↦ (let refused : none ≡ some bs = rw (failed, decode_hex) at h in cc)
  | inr (b, scanned) ↦ elim (Option-cases (decode_hex n (drop 2 s))) [
    | inl failed ↦ (let refused : none ≡ some bs = rw (scanned, failed, decode_hex) at h in cc)
    | inr (rest, decoded) ↦
        let same : some (u8 b ∷ rest) ≡ some bs = rw (scanned, decoded, decode_hex) at h in
        ap length (sym (some_eq same)) ∙ ap suc (decode_hex-size n (drop 2 s) rest decoded)
  ]
]

-- What an accepted request has. The nonce and the code are those that its headers spell out.
pub record IsSigned (m : Mbedtls) (now : ℕ) (buf path body : List ℕ) (g : ReporterKey) (w : Window)
    (nonce : List ℕ) : Type 0 where
  pub ts : List ℕ
  pub nonce_hex : List ℕ
  pub hmac_hex : List ℕ
  pub mac : List ℕ
  pub timestamp : extract_header buf (codes "X-SST-Timestamp:") 32 ≡ some ts
  pub nonce_header : extract_header buf (codes "X-SST-Nonce:") 25 ≡ some nonce_hex
  pub hmac_header : extract_header buf (codes "X-SST-HMAC:") 65 ≡ some hmac_hex
  pub recent_enough : skew now (strtoll10 ts) ≤ 30
  pub decoded : decode_hex 12 nonce_hex ≡ some nonce
  pub fresh : replay_window_seen w nonce ≡ false
  pub valid : g.rep_key_valid ≡ true
  pub received : decode_hex 32 hmac_hex ≡ some mac
  pub code : sst_hmac_sha256_ex m g.rep_mac_key 32 (signed_text ts nonce_hex path body) ≡ some mac

both_true : (a b : Bool) → (a && b) ≡ true → (a ≡ true) × (b ≡ true)
both_true true b h = (refl, h)
both_true false b h = cc

module _ (m : Mbedtls) where
  -- The code is right, and the nonce is kept.
  record IsChecked (text nonce hmac_hex : List ℕ) (g : ReporterKey) (w : Window) (r : Bool × Window)
      : Type 0 where
    mac : List ℕ
    fresh : replay_window_seen w nonce ≡ false
    valid : g.rep_key_valid ≡ true
    received : decode_hex 32 hmac_hex ≡ some mac
    code : sst_hmac_sha256_ex m g.rep_mac_key 32 text ≡ some mac
    kept : r ≡ (true, replay_window_add w nonce)

  check_signed-IsChecked :
      (buffer text nonce hmac_hex expected : List ℕ) (g : ReporterKey) (w : Window)
      → sst_hmac_sha256_ex m g.rep_mac_key 32 text ≡ some expected
      → (check_signed m buffer text nonce hmac_hex g w).0 ≡ true
      → IsChecked text nonce hmac_hex g w (check_signed m buffer text nonce hmac_hex g w)
  unfolding check_signed
  check_signed-IsChecked buffer text nonce hmac_hex expected g w made h =
      elim (Bool-cases (replay_window_seen w nonce)) [
        | inl old ↦ (let no_way : false ≡ true = rw (old, check_signed) at h in cc)
        | inr fresh ↦ elim (Bool-cases g.rep_key_valid) [
          | inr unset ↦ (let no_way : false ≡ true = rw (fresh, unset, check_signed) at h in cc)
          | inl valid ↦ elim (Bool-cases (ltb (length text) 1024)) [
            | inr long ↦
                (let no_way : false ≡ true = rw (fresh, valid, long, check_signed) at h in cc)
            | inl short ↦ elim (Option-cases (decode_hex 32 hmac_hex)) [
              | inl bad ↦
                  (let no_way : false ≡ true = rw (fresh, valid, short, bad, check_signed) at h in
                    cc)
              | inr (mac, received) ↦ elim (Bool-cases (bytes_eq expected mac)) [
                | inr other ↦
                    (let no_way : false ≡ true =
                        rw (fresh, valid, short, received, made, other, check_signed) at h in
                      cc)
                | inl same ↦ record {
                  mac = mac;
                  fresh = fresh;
                  valid = valid;
                  received = received;
                  code = made ∙ ap some (bytes_eq_sound expected mac same);
                  kept = rw (fresh, valid, short, received, made, same, check_signed) refl;
                }
              ]
            ]
          ]
        ]
      ]

  -- With all three headers: the time is close, and the nonce is spelled out.
  check_headers-checked :
      (now : ℕ) (buffer path body ts nonce_hex hmac_hex : List ℕ) (g : ReporterKey) (w : Window)
      → (check_headers m now buffer path body (some ts) (some nonce_hex) (some hmac_hex) g w).0
        ≡ true
      → (skew now (strtoll10 ts) ≤ 30)
        × ((nonce : List ℕ) × (decode_hex 12 nonce_hex ≡ some nonce)
            × (check_headers m now buffer path body (some ts) (some nonce_hex) (some hmac_hex) g w
                ≡ check_signed m buffer (signed_text ts nonce_hex path body) nonce hmac_hex g w))
  unfolding check_headers
  check_headers-checked now buffer path body ts nonce_hex hmac_hex g w h =
      elim (Bool-cases ((length nonce_hex == 24) && (length hmac_hex == 64))) [
        | inr wrong ↦ (let no_way : false ≡ true = rw (wrong, check_headers) at h in cc)
        | inl sizes ↦ elim (Bool-cases (ltb 30 (skew now (strtoll10 ts)))) [
          | inl stale ↦ (let no_way : false ≡ true = rw (sizes, stale, check_headers) at h in cc)
          | inr timely ↦ elim (Option-cases (decode_hex 12 nonce_hex)) [
            | inl bad ↦
                (let no_way : false ≡ true = rw (sizes, timely, bad, check_headers) at h in cc)
            | inr (nonce, decoded) ↦ (
              within now ts timely,
              (nonce, decoded, rw (sizes, timely, decoded, check_headers) refl),
            )
          ]
        ]
      ]
    where
      within :
          (now : ℕ) (ts : List ℕ)
          → ltb 30 (skew now (strtoll10 ts)) ≡ false
          → skew now (strtoll10 ts) ≤ 30
      within now ts timely = ground arith

  module _
      (working : (key text : List ℕ)
        → (mac : List ℕ) × (sst_hmac_sha256_ex m key 32 text ≡ some mac)) where
    pub verify_signed_request-IsSigned :
        (now : ℕ) (buffer buf path body : List ℕ) (body_len : ℕ) (g : ReporterKey) (w : Window)
        → (verify_signed_request m now buffer buf path body body_len g w).0 ≡ true
        → (nonce : List ℕ) × IsSigned m now buf path (take body_len body) g w nonce
          × (verify_signed_request m now buffer buf path body body_len g w
              ≡ (true, replay_window_add w nonce))
    unfolding verify_signed_request check_headers
    verify_signed_request-IsSigned now buffer buf path body body_len g w h =
        go (extract_header buf (codes "X-SST-Timestamp:") 32)
          (extract_header buf (codes "X-SST-Nonce:") 25)
          (extract_header buf (codes "X-SST-HMAC:") 65) refl refl refl h
      where
        go :
            (a b c : Option (List ℕ))
            → extract_header buf (codes "X-SST-Timestamp:") 32 ≡ a
            → extract_header buf (codes "X-SST-Nonce:") 25 ≡ b
            → extract_header buf (codes "X-SST-HMAC:") 65 ≡ c
            → (check_headers m now buffer path (take body_len body) a b c g w).0 ≡ true
            → (nonce : List ℕ) × IsSigned m now buf path (take body_len body) g w nonce
              × (check_headers m now buffer path (take body_len body) a b c g w
                  ≡ (true, replay_window_add w nonce))
        go (some ts) (some nonce_hex) (some hmac_hex) a b c h =
            let text : List ℕ = signed_text ts nonce_hex path (take body_len body) in
            let (timely, (nonce, decoded, same)) =
              check_headers-checked now buffer path (take body_len body) ts nonce_hex hmac_hex g w
                h in
            let (expected, made) = working g.rep_mac_key text in
            let r : IsChecked text nonce hmac_hex g w
                (check_signed m buffer text nonce hmac_hex g w) =
              check_signed-IsChecked buffer text nonce hmac_hex expected g w made
                (ap (λ (o : Bool × Window). o.0) (sym same) ∙ h) in
            (
              nonce,
              record {
                ts = ts;
                nonce_hex = nonce_hex;
                hmac_hex = hmac_hex;
                mac = r.mac;
                timestamp = a;
                nonce_header = b;
                hmac_header = c;
                recent_enough = timely;
                decoded = decoded;
                fresh = r.fresh;
                valid = r.valid;
                received = r.received;
                code = r.code;
              },
              same ∙ r.kept,
            )
        go none b c p q r h = cc
        go (some ts) none c p q r h = cc
        go (some ts) (some nonce_hex) none p q r h = cc
