-- ===== src/PicoReceiver/Bounds.antt =====
-- The two buffers and the rate.
use lifi_auth.Common.{
  ℕ, ◌+◌, ◌≤◌, ◌≡◌, arith, true, false, ◌||◌, Option, some, none, List, [], ◌∷◌, ◌++◌,
}
use lifi_auth.Common.{
  length, length-append, ltb, ◌==◌, u32, if_both, option_both, if◌then◌else◌, codes, Bool-cases,
  inl, inr,
}
use lifi_auth.Control.{baud_is_sane}
use lifi_auth.Host.Texts.{c_string}
use lifi_auth.PicoReceiver.{
  PicoReceiver, hunt, pre1, pre2, pre3, payload, boot, strtoul10, behind, is_text,
}
use lifi_auth.PicoReceiver.{
  print, truncated, raw, received, test_result, test_done, test_start, baud_switch,
}
use lifi_auth.PicoReceiver.{set_baud, usb_command, usb_char, count_or_show, end_test, dispatch}
use lifi_auth.PicoReceiver.{take_payload, receive_byte, byte_of, main_round, rounds}

-- There is room for the final NUL in both buffers, and the rate is one that the PIO can follow.
pub record IsWithin (buf cmd : List ℕ) (baud : ℕ) : Type 0 where
  pub buf_fits : length buf ≤ 511
  pub cmd_fits : length cmd ≤ 63
  pub baud_low : 1000 ≤ baud
  pub baud_high : baud ≤ 4000000

abbrev pub IsBounded : PicoReceiver → Type 0
IsBounded r = IsWithin r.buf r.cmd r.current_baud

sane-IsWithin :
    (baud : ℕ) (buf cmd : List ℕ) (old : ℕ)
    → baud_is_sane baud ≡ true
    → IsWithin buf cmd old
    → IsWithin buf cmd baud
unfolding baud_is_sane
sane-IsWithin baud buf cmd old sane h = record {
  buf_fits = h.buf_fits;
  cmd_fits = h.cmd_fits;
  baud_low = ground (arith, sane);
  baud_high = ground (arith, sane);
}

set_baud-IsBounded : (baud : ℕ) (r : PicoReceiver) → IsBounded r → IsBounded (set_baud baud r)
unfolding set_baud
set_baud-IsBounded baud r h = elim (Bool-cases (baud_is_sane baud)) [
  | inl sane ↦ rw sane (sane-IsWithin baud r.buf r.cmd r.current_baud sane h)
  | inr not_sane ↦ rw not_sane h
]

usb_command-IsBounded :
    (cmd : List ℕ) (r : PicoReceiver) → IsBounded r → IsBounded (usb_command cmd r)
unfolding usb_command
usb_command-IsBounded cmd r h =
    let on = is_text cmd (codes "raw on") in
    let rate = behind (codes "baud ") cmd in
    let other : PicoReceiver = elim rate [ none ↦ r | some rate ↦ set_baud (strtoul10 rate) r ] in
    if_both IsBounded on (record r { raw_mode = true })
      (if is_text cmd (codes "raw off") then record r { raw_mode = false } else other) h
      (if_both IsBounded (is_text cmd (codes "raw off")) (record r { raw_mode = false }) other h
        (option_both IsBounded rate r (λ (rate : List ℕ). set_baud (strtoul10 rate) r) h
          (λ (rate : List ℕ). set_baud-IsBounded (strtoul10 rate) r h)))

usb_char-IsBounded : (c : ℕ) (r : PicoReceiver) → IsBounded r → IsBounded (usb_char c r)
unfolding usb_char
usb_char-IsBounded c r h =
    let fresh = record r { cmd = [] } in
    let empty : IsBounded fresh = record {
      buf_fits = h.buf_fits;
      cmd_fits = omega arith;
      baud_low = h.baud_low;
      baud_high = h.baud_high;
    } in
    let kept : IsBounded
        (if ltb (length r.cmd) 63 then record r { cmd = r.cmd ++ (c ∷ []) } else r) =
      elim (Bool-cases (ltb (length r.cmd) 63)) [
        | inl room ↦ rw room (record {
          buf_fits = h.buf_fits;
          cmd_fits = ground (arith, room, length-append r.cmd (c ∷ []));
          baud_low = h.baud_low;
          baud_high = h.baud_high;
        })
        | inr full ↦ rw full h
      ] in
    if_both IsBounded ((c == 10) || (c == 13)) (usb_command r.cmd fresh) _
      (usb_command-IsBounded r.cmd fresh empty) kept

count_or_show-IsBounded :
    (text : List ℕ) (r : PicoReceiver) → IsBounded r → IsBounded (count_or_show text r)
unfolding count_or_show
count_or_show-IsBounded text r h =
    option_both IsBounded (if r.test_active then behind (codes "PKT") text else none)
      (print (received r.msg_count (c_string text)) r)
      (λ (rest : List ℕ). record r { test_recv = u32 (r.test_recv + 1) }) h (λ (rest : List ℕ). h)

end_test-IsBounded : (text : List ℕ) (r : PicoReceiver) → IsBounded r → IsBounded (end_test text r)
unfolding end_test
end_test-IsBounded text r h =
    option_both IsBounded (behind (codes "__TEST_END:") text)
      (if is_text text (codes "__DONE__") then print test_done r else count_or_show text r)
      (λ (sent : List ℕ).
        print (test_result r.test_baud (strtoul10 sent) r.test_recv)
          (record r { test_active = false }))
      (if_both IsBounded (is_text text (codes "__DONE__")) (print test_done r)
        (count_or_show text r) h (count_or_show-IsBounded text r h))
      (λ (sent : List ℕ). h)

-- The rate of a test is taken if it is in range.
switch-IsBounded :
    (baud : ℕ) (r : PicoReceiver)
    → IsBounded r
    → IsBounded (
        if baud_is_sane baud
        then print (baud_switch baud) (record r { current_baud = baud })
        else r)
switch-IsBounded baud r h = elim (Bool-cases (baud_is_sane baud)) [
  | inl sane ↦ rw sane (sane-IsWithin baud r.buf r.cmd r.current_baud sane h)
  | inr not_sane ↦ rw not_sane h
]

dispatch-IsBounded : (text : List ℕ) (r : PicoReceiver) → IsBounded r → IsBounded (dispatch text r)
unfolding dispatch
dispatch-IsBounded text r h =
    let begun = record r { test_active = true; test_recv = 0; test_baud = r.current_baud } in
    let begins = is_text text (codes "__TEST_START__") in
    let begin = print (test_start r.current_baud) begun in
    option_both IsBounded (behind (codes "__BAUD:") text)
      (if begins then begin else end_test text r)
      (λ (rate : List ℕ).
        if baud_is_sane (strtoul10 rate)
        then print (baud_switch (strtoul10 rate)) (record r { current_baud = strtoul10 rate })
        else r)
      (if_both IsBounded begins begin (end_test text r) h (end_test-IsBounded text r h))
      (λ (rate : List ℕ). switch-IsBounded (strtoul10 rate) r h)

take_payload-IsBounded :
    (byte : ℕ) (r : PicoReceiver) → IsBounded r → IsBounded (take_payload byte r)
unfolding take_payload
take_payload-IsBounded byte r h =
    let counted = record r { msg_count = u32 (r.msg_count + 1) } in
    let longer = record r { buf = r.buf ++ (byte ∷ []) } in
    let cut = record (print (truncated counted.msg_count (c_string r.buf)) counted) {
      state = hunt;
    } in
    let kept : IsBounded (if ltb (length r.buf) 511 then longer else cut) =
      elim (Bool-cases (ltb (length r.buf) 511)) [
        | inl room ↦ rw room (record {
          buf_fits = ground (arith, room, length-append r.buf (byte ∷ []));
          cmd_fits = h.cmd_fits;
          baud_low = h.baud_low;
          baud_high = h.baud_high;
        })
        | inr full ↦ rw full h
      ] in
    if_both IsBounded ((byte == 10) || (byte == 13))
      (record (dispatch r.buf counted) { state = hunt })
      (if ltb (length r.buf) 511 then longer else cut) (dispatch-IsBounded r.buf counted h) kept

-- The message is given up or begun with an empty buffer.
emptied : (buf cmd : List ℕ) (baud : ℕ) → IsWithin buf cmd baud → IsWithin [] cmd baud
emptied buf cmd baud h = record {
  buf_fits = omega arith;
  cmd_fits = h.cmd_fits;
  baud_low = h.baud_low;
  baud_high = h.baud_high;
}

receive_byte-IsBounded :
    (byte : ℕ) (r : PicoReceiver) → IsBounded r → IsBounded (receive_byte byte r)
unfolding receive_byte
receive_byte-IsBounded byte r h =
    elim r.state
      as (λ s. IsBounded (elim s [
        | hunt ↦ record r { state = if byte == 0xAB then pre1 else hunt }
        | pre1 ↦ record r { state = if byte == 0xCD then pre2 else hunt }
        | pre2 ↦ record r { state = if byte == 0xEF then pre3 else hunt }
        | pre3 ↦
            if byte == 0x12
            then record r { state = payload; buf = [] }
            else record r { state = hunt }
        | payload ↦ take_payload byte r
      ])) [
        | hunt ↦ h
        | pre1 ↦ h
        | pre2 ↦ h
        | pre3 ↦
            if_both IsBounded (byte == 0x12) (record r { state = payload; buf = [] })
              (record r { state = hunt }) (emptied r.buf r.cmd r.current_baud h) h
        | payload ↦ take_payload-IsBounded byte r h
      ]

-- A round keeps the bounds.
main_round-IsBounded :
    (typed word : Option ℕ) (r : PicoReceiver) → IsBounded r → IsBounded (main_round typed word r)
unfolding main_round
main_round-IsBounded typed word r h =
    let r' : PicoReceiver = elim typed [ none ↦ r | some c ↦ usb_char c r ] in
    let h' : IsBounded r' =
      option_both IsBounded typed r (λ (c : ℕ). usb_char c r) h
        (λ (c : ℕ). usb_char-IsBounded c r h) in
    option_both IsBounded word r'
      (λ (w : ℕ). if r'.raw_mode then print (raw (byte_of w)) r' else receive_byte (byte_of w) r')
      h'
      (λ (w : ℕ).
        if_both IsBounded r'.raw_mode (print (raw (byte_of w)) r') (receive_byte (byte_of w) r') h'
          (receive_byte-IsBounded (byte_of w) r' h'))

-- Whatever is typed and received since the start, in any order: the message and the command that
-- are being read leave room for the final NUL in their buffers of 512 and 64 bytes, and the rate is
-- from 1000 to 4000000.
pub rounds-IsBounded : (inputs : List (Option ℕ × Option ℕ)) → IsBounded (rounds inputs)
unfolding rounds boot
rounds-IsBounded [] = record {
  buf_fits = omega arith;
  cmd_fits = omega arith;
  baud_low = omega arith;
  baud_high = omega arith;
}
rounds-IsBounded ((typed, word) ∷ earlier) =
    main_round-IsBounded typed word (rounds earlier) (rounds-IsBounded earlier)
