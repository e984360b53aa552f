-- ===== src/Control/Signed.antt =====
-- receiver/src/dash_receiver.c: the signature of a request, `verify_signed_request`. The server does
-- not call it at present.
use lifi_auth.Common.{ℕ, ◌+◌, ◌-◌, Bool, true, false, Option, some, none, List, [], ◌∷◌, ◌++◌}
use lifi_auth.Common.{codes, length, take, ltb, ◌==◌, ◌||◌, ◌&&◌, if◌then◌else◌, bytes_eq}
use lifi_auth.Crypto.{Mbedtls, sst_hmac_sha256_ex}
use lifi_auth.ReplayWindow.{Window, replay_window_seen, replay_window_add}
use lifi_auth.Control.{ReporterKey}
use lifi_auth.Control.Text.{after, skip_chars, take_until, decode_hex, strtoll10}

-- The value of a header line, cut to the buffer.
unfoldable pub extract_header : List ℕ → List ℕ → ℕ → Option (List ℕ)
extract_header buf header_name out_size = elim (after header_name buf) [
  | none ↦ none
  | some p ↦
      let value =
        take_until (out_size - 1) (λ c. (c == 13) || (c == 10)) (skip_chars (λ c. c == b' ') p) in
      elim value [ [] ↦ none | c ∷ cs ↦ some (c ∷ cs) ]
]

-- The distance of two times, the second with its sign.
unfoldable pub skew : ℕ → Bool × ℕ → ℕ
skew now (true, n) = now + n
skew now (false, n) = if ltb n now then now - n else n - now

abbrev pub signed_text : List ℕ → List ℕ → List ℕ → List ℕ → List ℕ
signed_text ts nonce_hex path body = ts ++ (b'|' ∷ (nonce_hex ++ (b'|' ∷ (path ++ (b'|' ∷ body)))))

module _ (m : Mbedtls) where
  -- From the look at the nonce on. `buffer` is what the buffer for the code holds before.
  unfoldable pub check_signed :
      List ℕ → List ℕ → List ℕ → List ℕ → ReporterKey → Window → Bool × Window
  check_signed buffer text nonce hmac_hex g w =
      let expected : List ℕ = elim (sst_hmac_sha256_ex m g.rep_mac_key 32 text) [
        | some mac ↦ mac
        | none ↦ buffer
      ] in
      if replay_window_seen w nonce
      then (false, w)
      else if g.rep_key_valid
      then (if ltb (length text) 1024
          then (elim (decode_hex 32 hmac_hex) [
            | none ↦ (false, w)
            | some received ↦
                if bytes_eq expected received then (true, replay_window_add w nonce) else (false, w)
          ])
          else (false, w))
      else (false, w)

  -- What follows the three headers.
  unfoldable pub check_headers :
      ℕ
      → List ℕ
      → List ℕ
      → List ℕ
      → Option (List ℕ)
      → Option (List ℕ)
      → Option (List ℕ)
      → ReporterKey
      → Window
      → Bool × Window
  check_headers now buffer path body (some ts) (some nonce_hex) (some hmac_hex) g w =
      let checked : Bool × Window = elim (decode_hex 12 nonce_hex) [
        | none ↦ (false, w)
        | some nonce ↦ check_signed buffer (signed_text ts nonce_hex path body) nonce hmac_hex g w
      ] in
      if (length nonce_hex == 24) && (length hmac_hex == 64)
      then if ltb 30 (skew now (strtoll10 ts)) then (false, w) else checked
      else (false, w)
  check_headers now buffer path body _ _ _ g w = (false, w)

  -- At a time of the wall clock, with the body's first `body_len` bytes.
  unfoldable pub verify_signed_request :
      ℕ → List ℕ → List ℕ → List ℕ → List ℕ → ℕ → ReporterKey → Window → Bool × Window
  verify_signed_request now buffer buf path body body_len g w =
      check_headers now buffer path (take body_len body)
        (extract_header buf (codes "X-SST-Timestamp:") 32)
        (extract_header buf (codes "X-SST-Nonce:") 25) (extract_header buf (codes "X-SST-HMAC:") 65)
        g w
