-- ===== src/Control.antt =====
-- receiver/src/dash_receiver.c: the server that takes requests of the dashboard.
pub mod Text
pub mod Signed
pub mod Accepted
pub mod Replayed
pub mod Queued
pub mod Hex
pub mod Pushed
use lifi_auth.Common.{
  ℕ, ◌+◌, Bool, true, false, ◌&&◌, Option, some, none, List, [], ◌∷◌, ◌++◌, codes, bytes_eq,
}
use lifi_auth.Common.{
  zero, suc, take, drop, length, leb, zeros, if◌then◌else◌, u8, u32, ◌==◌, ◌||◌, ◌-◌, ◌^◌, ltb,
}
use lifi_auth.Commands.Strtoul.{skip_spaces}
use lifi_auth.Crypto.{Mbedtls, sst_hmac_sha256_ex}
use lifi_auth.Host.{Host, ForceRequest, blind, by_id, pushed, SessionKey}
use lifi_auth.Host.Texts.{c_string}
use Text.{
  after, after_char, skip_chars, take_until, decode_hex, scan_02x, strtoll10, hex_of, print_decimal,
  word,
}

-- What the server sees of the key: `g_rep_mac_key`, `g_rep_key_valid` and `g_current_key_id_hex`.
pub record ReporterKey : Type 0 where
  pub rep_mac_key : List ℕ
  pub rep_key_valid : Bool
  pub key_id_hex : List ℕ

-- These variables as the main loop has left them; `set_current_key_id` writes the ID with `%02x`.
unfoldable pub reporter_key : Host → ReporterKey
reporter_key h = record {
  rep_mac_key = h.rep_mac_key;
  rep_key_valid = h.rep_key_valid;
  key_id_hex = hex_of (take 8 h.rep_key_id);
}

-- What else the server shares with the main loop: `g_current_baud_int`, and the requests that wait
-- for the loop.
pub record Shared : Type 0 where
  pub current_baud : ℕ
  pub force_request : Option ForceRequest
  pub baud_request : Option ℕ

-- What goes back to the client. `closed`: nothing.
pub data Response : Type 0 where
  closed accepted_202 unsupported_baud_400 no_key_503 : Response
  ok_200 : List ℕ → Response

unfoldable pub baud_is_sane : ℕ → Bool
baud_is_sane baud = leb 1000 baud && leb baud 4000000

-- A field of so many bytes, as twice as many hexadecimal characters in quotes behind its name.
unfoldable pub parse_hex_field : List ℕ → List ℕ → ℕ → Option (List ℕ)
parse_hex_field body field_name out_size =
    let quoted = b'"' ∷ (field_name ++ (b'"' ∷ [])) in
    elim (after quoted body) [
      | none ↦ none
      | some p ↦ elim (after_char b':' p) [
        | none ↦ none
        | some q ↦
            let value = skip_chars (λ c. (c == b' ') || (c == b'"')) q in
            let hex = take_until (out_size + out_size) (λ c. c == b'"') value in
            let bytes = decode_hex out_size hex in
            if length hex == out_size + out_size then bytes else none
      ]
    ]

-- A key that the dashboard pushes: 16 bytes of the zeroed buffer for the cipher key are set.
abbrev pub pushed_key : List ℕ → List ℕ → List ℕ → SessionKey
pushed_key id cipher_key mac_key = record {
  key_id = id;
  cipher_key = cipher_key ++ zeros 16;
  mac_key = mac_key;
}

-- What a body asks for.
unfoldable pub force_request_of : List ℕ → ForceRequest
force_request_of body = elim (parse_hex_field body (codes "key_id") 8) [
  | none ↦ blind
  | some id ↦ elim (parse_hex_field body (codes "cipher_key") 16) [
    | none ↦ by_id id
    | some cipher_key ↦ elim (parse_hex_field body (codes "mac_key") 32) [
      | none ↦ by_id id
      | some mac_key ↦ pushed (pushed_key id cipher_key mac_key)
    ]
  ]
]

unfoldable pub handle_force_key_request : List ℕ → Shared → Response × Shared
handle_force_key_request body s =
    (accepted_202, record s { force_request = some (force_request_of body) })

-- The number behind the name, as `atoi` reads it into an `int` of 32 bits.
unfoldable pub baud_of : List ℕ → Option ℕ
baud_of body = elim (after (codes "\"baud\"") body) [
  | none ↦ none
  | some p ↦ elim (after_char b':' p) [
    | none ↦ none
    | some q ↦
        let (negative, n) = strtoll10 q in some (if negative then u32 (2 ^ 32 - u32 n) else u32 n)
  ]
]

unfoldable pub handle_set_baud_request : List ℕ → Shared → Response × Shared
handle_set_baud_request body s = elim (baud_of body) [
  | none ↦ (unsupported_baud_400, s)
  | some baud ↦
      if baud_is_sane baud
      then (accepted_202, record s { baud_request = some baud })
      else (unsupported_baud_400, s)
]

unfoldable pub handle_status_request : ReporterKey → Shared → Response
handle_status_request g s =
    let id =
      if g.rep_key_valid then b'"' ∷ (take 16 g.key_id_hex ++ (b'"' ∷ [])) else codes "null" in
    ok_200 (
      codes "{\"key_id\":"
      ++ (id ++ (codes ",\"baud\":" ++ (print_decimal s.current_baud ++ codes "}"))))

module _ (m : Mbedtls) where
  -- The bytes of the nonce: where a conversion fails, what lies in the variable stays.
  unfoldable pub decode_nonce : (ℕ → ℕ) → ℕ → List ℕ → List ℕ
  decode_nonce stack zero hex = []
  decode_nonce stack (suc left) hex =
      u8 (elim (scan_02x hex) [ some b ↦ b | none ↦ stack left ])
      ∷ decode_nonce stack left (drop 2 hex)

  -- The code of the nonce under the MAC key. The library's answer is not looked at: without one,
  -- what lies in the buffer is sent.
  unfoldable pub answer_challenge : (ℕ → ℕ) → List ℕ → List ℕ → ReporterKey → Response
  answer_challenge stack buffer hex g =
      let nonce = decode_nonce stack 32 hex in
      let mac : List ℕ = elim (sst_hmac_sha256_ex m g.rep_mac_key 32 nonce) [
        | some mac ↦ mac
        | none ↦ buffer
      ] in
      if g.rep_key_valid
      then ok_200 (
          codes "{\"hmac\":\""
          ++ (hex_of mac ++ (codes "\",\"key_id\":\"" ++ (take 17 g.key_id_hex ++ codes "\"}"))))
      else no_key_503

  unfoldable pub handle_challenge : (ℕ → ℕ) → List ℕ → List ℕ → ReporterKey → Response
  handle_challenge stack buffer body g = elim (after (codes "\"nonce\"") body) [
    | none ↦ closed
    | some p ↦ elim (after_char b':' p) [
      | none ↦ closed
      | some q ↦
          let hex =
            take_until 64 (λ c. c == b'"')
              (skip_chars (λ c. (c == b':') || ((c == b' ') || (c == b'"'))) q) in
          if length hex == 64 then answer_challenge stack buffer hex g else closed
    ]
  ]

  -- A request as it is received: its path and its body decide. No signature is looked at.
  unfoldable pub challenge_handle :
      (ℕ → ℕ) → List ℕ → List ℕ → ReporterKey → Shared → Response × Shared
  challenge_handle stack buffer received g s =
      let buf = c_string (take 2047 received) in
      let line = skip_spaces buf in
      let path = take 63 (word (skip_spaces (drop (length (word line)) line))) in
      let body : List ℕ = elim (after (13 ∷ 10 ∷ 13 ∷ 10 ∷ []) buf) [
        | some body ↦ body
        | none ↦ []
      ] in
      if length received == 0
      then (closed, s)
      else if bytes_eq path (codes "/force_key")
      then handle_force_key_request body s
      else if bytes_eq path (codes "/set_baud")
      then handle_set_baud_request body s
      else if bytes_eq path (codes "/status")
      then (handle_status_request g s, s)
      else (handle_challenge stack buffer body g, s)
