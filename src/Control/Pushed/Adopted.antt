-- ===== src/Control/Pushed/Adopted.antt =====
-- From the request that pushes a key to the receiver that uses it.
use lifi_auth.Common.{u64}
use lifi_auth.Common.{
  ℕ, ◌+◌, ◌≡◌, refl, sym, subst, Bool, true, false, Option, some, none, List, [], All, IsByte,
}
use lifi_auth.Common.{length, take, leb, if_both, if◌then◌else◌}
use lifi_auth.Crypto.{Mbedtls}
use lifi_auth.Control.Hex.{length-hex_of}
use lifi_auth.Control.Text.{hex_of, print_decimal}
use lifi_auth.Common.{codes, take_all, ◌++◌, ◌∷◌, arith, append_assoc, ap}
use lifi_auth.Control.{
  ok_200, Response, handle_status_request, reporter_key, Shared, handle_force_key_request,
  pushed_key,
}
use lifi_auth.Control.Pushed.{push_body, force_request_of-push_body}
use lifi_auth.Control.Queued.{take_request, loop_step}
use lifi_auth.Host.{
  Host, HostState, idle, waiting_for_yes, waiting_for_ack, waiting_for_sst_hs2, Sst, SessionKey,
}
use lifi_auth.Host.{use_key, sync_reporter}
use lifi_auth.Host.Keyboard.{adopt_key, force_key, press}
use lifi_auth.Host.Port.{header, port_write, write_both, send_key}
use lifi_auth.Host.Step.{forget, expire, check_timeout, read_byte, host_step}
use lifi_auth.Uart.{Poll}

-- The key is in use and shown, and there is nothing to read.
pub record IsUsed (k : SessionKey) (id cipher_key mac_key : List ℕ) (key_valid : Bool)
    (rep_key_valid : Bool) (rep_mac_key rep_key_id : List ℕ) (input : List Poll) : Type 0 where
  pub same_id : id ≡ k.key_id
  pub same_cipher_key : cipher_key ≡ k.cipher_key
  pub same_mac_key : mac_key ≡ k.mac_key
  pub valid : key_valid ≡ true
  pub shown_valid : rep_key_valid ≡ true
  pub shown_mac_key : rep_mac_key ≡ k.mac_key
  pub shown_id : rep_key_id ≡ k.key_id
  pub quiet : input ≡ []

abbrev pub IsUsing : SessionKey → Host → Type 0
IsUsing k h =
    IsUsed k h.key_id h.rx.cipher_key h.mac_key h.rx.key_valid h.rep_key_valid h.rep_mac_key
      h.rep_key_id h.rx.input

-- The answer to a request for the status: the ID in hexadecimal digits, and the rate.
abbrev pub status_answer : List ℕ → ℕ → Response
status_answer id baud = ok_200 (
    codes "{\"key_id\":\""
    ++ (hex_of id ++ (codes "\",\"baud\":" ++ (print_decimal baud ++ codes "}"))))

module _ (k : SessionKey) where
  write-IsUsing : (bytes : List ℕ) (h : Host) → IsUsing k h → IsUsing k (port_write bytes h).1
  unfolding port_write
  write-IsUsing bytes h u = u

  write_both-IsUsing :
      (first second : List ℕ) (h : Host) → IsUsing k h → IsUsing k (write_both first second h).1
  unfolding write_both
  write_both-IsUsing first second h u =
      let h' = (port_write first h).1 in
      let t = write-IsUsing first h u in
      if_both (λ (r : Bool × Host). IsUsing k r.1) (port_write first h).0 (port_write second h')
        (false, h') (write-IsUsing second h' t) t

  send_key-IsUsing : (h : Host) → IsUsing k h → IsUsing k (send_key k h).1
  unfolding send_key
  send_key-IsUsing h u =
      let head = write_both (header 0x10 56) (take 8 k.key_id) h in
      let t = write_both-IsUsing (header 0x10 56) (take 8 k.key_id) h u in
      if_both (λ (r : Bool × Host). IsUsing k r.1) head.0
        (write_both (take 16 k.cipher_key) (take 32 k.mac_key) head.1) (false, head.1)
        (write_both-IsUsing (take 16 k.cipher_key) (take 32 k.mac_key) head.1 t) t

  adopt_key-IsUsing : (h : Host) → h.rx.input ≡ [] → IsUsing k (adopt_key k h)
  unfolding adopt_key
  adopt_key-IsUsing h nothing =
      let h' =
        sync_reporter k (use_key k (record h { keys_consumed = u64 (h.keys_consumed + 1) })) in
      let u : IsUsing k h' = record {
        same_id = refl;
        same_cipher_key = refl;
        same_mac_key = refl;
        valid = refl;
        shown_valid = refl;
        shown_mac_key = refl;
        shown_id = refl;
        quiet = nothing;
      } in
      if_both (IsUsing k) h.port_open (send_key k h').1 h' (send_key-IsUsing h' u) u

  -- A wait that ends leaves the key.
  left-IsUsing :
      (waiting : HostState) (h : Host)
      → IsUsing k h
      → IsUsing k (record (forget waiting h) { state = idle; state_deadline = 0 })
  unfolding forget
  left-IsUsing idle h u = u
  left-IsUsing waiting_for_yes h u = u
  left-IsUsing waiting_for_ack h u = u
  left-IsUsing waiting_for_sst_hs2 h u = u

  expire-IsUsing :
      (state : HostState) (now : ℕ) (h : Host) → IsUsing k h → IsUsing k (expire state now h)
  unfolding expire
  expire-IsUsing idle now h u = u
  expire-IsUsing waiting_for_yes now h u =
      if_both (IsUsing k) (leb h.state_deadline now) _ h (left-IsUsing waiting_for_yes h u) u
  expire-IsUsing waiting_for_ack now h u =
      if_both (IsUsing k) (leb h.state_deadline now) _ h (left-IsUsing waiting_for_ack h u) u
  expire-IsUsing waiting_for_sst_hs2 now h u =
      if_both (IsUsing k) (leb h.state_deadline now) _ h (left-IsUsing waiting_for_sst_hs2 h u) u

module _ (m : Mbedtls) (polls_ms : ℕ → ℕ) (sst : Sst) where
  read_byte-IsUsing :
      (now wall : ℕ) (stack : List ℕ) (k : SessionKey) (h : Host)
      → IsUsing k h
      → IsUsing k (read_byte m polls_ms sst now wall stack h.rx.input h)
  unfolding read_byte
  read_byte-IsUsing now wall stack k h u =
      subst (λ ps. IsUsing k (read_byte m polls_ms sst now wall stack ps h)) (sym u.quiet) u

  -- What the dashboard is told then.
  status-IsUsing :
      (id cipher_key mac_key : List ℕ) (s : Shared) (h : Host)
      → length id ≡ 8
      → IsUsing (pushed_key id cipher_key mac_key) h
      → handle_status_request (reporter_key h) s ≡ status_answer id s.current_baud
  unfolding handle_status_request reporter_key
  status-IsUsing id c mk s h size u =
      rw
        (
          u.shown_valid,
          u.shown_id,
          take_all 8 id size,
          take_all 16 (hex_of id) (omega (arith, length-hex_of id, size)),
        )
        (ap (λ t. ok_200 (codes "{\"key_id\":\"" ++ t))
          (append_assoc (hex_of id) (b'"' ∷ [])
            (codes ",\"baud\":" ++ (print_decimal s.current_baud ++ codes "}"))))

  -- After a request whose body pushes a key of 8, 16 and 32 bytes, whoever sent it, the next round
  -- of the loop in which no key is pressed and nothing can be read goes on with that key in use and
  -- valid, its MAC key and its ID are those that the server sees, the request is gone, and what the
  -- server answers to a request for the status has the ID of that key in hexadecimal digits.
  pub loop_step-pushed :
      (now wall : ℕ) (stack id cipher_key mac_key : List ℕ) (port : Option (List Poll)) (s : Shared)
      (h : Host)
      → length id ≡ 8
      → length cipher_key ≡ 16
      → length mac_key ≡ 32
      → All IsByte id
      → All IsByte cipher_key
      → All IsByte mac_key
      → h.rx.input ≡ []
      → (h' : Host) × (loop_step m polls_ms sst now wall stack port none
            (handle_force_key_request (push_body id cipher_key mac_key) s).1
            h
          ≡ (some h', record s { force_request = none }))
        × IsUsing (pushed_key id cipher_key mac_key) h'
        × (handle_status_request (reporter_key h') (record s { force_request = none })
            ≡ status_answer id s.current_baud)
  unfolding loop_step take_request handle_force_key_request host_step press force_key check_timeout
  loop_step-pushed now wall stack id c mk port s h id_size c_size mk_size id_bytes c_bytes mk_bytes
        nothing =
      let k : SessionKey = pushed_key id c mk in
      let h₁ : Host = adopt_key k h in
      let u : IsUsing k (check_timeout now h₁) =
        expire-IsUsing k h₁.state now h₁ (adopt_key-IsUsing k h nothing) in
      let h₂ : Host = check_timeout now h₁ in
      let h₃ : Host =
        if h₂.port_open then read_byte m polls_ms sst now wall stack h₂.rx.input h₂ else h₂ in
      let u₃ : IsUsing k h₃ =
        if_both (IsUsing k) h₂.port_open (read_byte m polls_ms sst now wall stack h₂.rx.input h₂) h₂
          (read_byte-IsUsing now wall stack k h₂ u) u in
      (
        h₃,
        rw (force_request_of-push_body id c mk id_size c_size mk_size id_bytes c_bytes mk_bytes)
            refl,
        u₃,
        status-IsUsing id c mk (record s { force_request = none }) h₃ id_size u₃,
      )
