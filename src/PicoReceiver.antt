-- ===== src/PicoReceiver.antt =====
-- receiver_pico/src/main.c: the receiver on a Pico, which prints what it receives over USB, and
-- counts packets in speed tests. Its heartbeat, the commands that only print (`status`, `pintest`)
-- and the divider of the PIO's clock, which follows from the baud rate, are left out.
pub mod Bounds
pub mod Frames
use lifi_auth.Common.{ℕ, zero, suc, ◌+◌, ◌-◌, ◌*◌, ◌/◌, ◌%◌, ◌^◌, Bool, true, false, ◌&&◌, ◌||◌}
use lifi_auth.Common.{Option, some, none, List, [], ◌∷◌, ◌++◌, length, drop, get_or, u8, u32}
use lifi_auth.Common.{◌==◌, ltb, leb, if◌then◌else◌, bytes_eq, codes}
use lifi_auth.Commands.Strtoul.{skip_spaces}
use lifi_auth.Control.{baud_is_sane}
use lifi_auth.Control.Text.{strip_prefix, digits10}
use lifi_auth.Host.Texts.{c_string}

pub data RxState : Type 0 where
  hunt pre1 pre2 pre3 payload : RxState

-- What is printed of what is received: a byte in raw mode, a message with its number, a message
-- that is cut off, and the lines of a test.
pub data Output : Type 0 where
  raw : ℕ → Output
  received truncated : ℕ → List ℕ → Output
  baud_switch test_start : ℕ → Output
  test_result : ℕ → ℕ → ℕ → Output
  test_done : Output

-- The static variables; `buf` and `cmd` up to their indices, `printed` in order.
pub record PicoReceiver : Type 0 where
  pub current_baud : ℕ
  pub buf : List ℕ
  pub state : RxState
  pub msg_count : ℕ
  pub raw_mode : Bool
  pub test_active : Bool
  pub test_recv : ℕ
  pub test_baud : ℕ
  pub cmd : List ℕ
  pub printed : List Output

unfoldable pub boot : PicoReceiver
boot = record {
  current_baud = 9600;
  buf = [];
  state = hunt;
  msg_count = 0;
  raw_mode = false;
  test_active = false;
  test_recv = 0;
  test_baud = 0;
  cmd = [];
  printed = [];
}

-- `strtoul(s, NULL, 10)` with a 32-bit `unsigned long`.
unfoldable pub strtoul10 : List ℕ → ℕ
unfolding skip_spaces digits10
strtoul10 s =
    let cs = skip_spaces s in
    let negative = get_or cs 0 0 == b'-' in
    let signed = negative || (get_or cs 0 0 == b'+') in
    let v = digits10 0 (if signed then drop 1 cs else cs) in
    if ltb v (2 ^ 32) then (if negative then (2 ^ 32 - v) % 2 ^ 32 else v) else 2 ^ 32 - 1

-- `strcmp(s, t) == 0`, where `s` is a buffer up to its first NUL.
abbrev pub is_text : List ℕ → List ℕ → Bool
is_text s t = bytes_eq (c_string s) t

-- `strncmp(s, t, strlen(t)) == 0`, and what follows.
abbrev pub behind : List ℕ → List ℕ → Option (List ℕ)
behind t s = strip_prefix t (c_string s)

abbrev pub print : Output → PicoReceiver → PicoReceiver
print line r = record r { printed = r.printed ++ (line ∷ []) }

-- A new rate, if it is in range.
unfoldable pub set_baud : ℕ → PicoReceiver → PicoReceiver
set_baud baud r = if baud_is_sane baud then record r { current_baud = baud } else r

-- A command that is typed.
unfoldable pub usb_command : List ℕ → PicoReceiver → PicoReceiver
usb_command cmd r =
    if is_text cmd (codes "raw on")
    then record r { raw_mode = true }
    else (if is_text cmd (codes "raw off")
        then record r { raw_mode = false }
        else elim (behind (codes "baud ") cmd) [
          | some rate ↦ set_baud (strtoul10 rate) r
          | none ↦ r
        ])

-- A character that is typed. The 63 characters that fit are kept.
unfoldable pub usb_char : ℕ → PicoReceiver → PicoReceiver
usb_char c r =
    if (c == 10) || (c == 13)
    then usb_command r.cmd (record r { cmd = [] })
    else if ltb (length r.cmd) 63
    then record r { cmd = r.cmd ++ (c ∷ []) }
    else r

-- A message that no command of the test protocol is, and that is counted while a test runs.
unfoldable pub count_or_show : List ℕ → PicoReceiver → PicoReceiver
count_or_show text r = elim (if r.test_active then behind (codes "PKT") text else none) [
  | some rest ↦ record r { test_recv = u32 (r.test_recv + 1) }
  | none ↦ print (received r.msg_count (c_string text)) r
]

-- The end of a test, or another message.
unfoldable pub end_test : List ℕ → PicoReceiver → PicoReceiver
end_test text r = elim (behind (codes "__TEST_END:") text) [
  | some sent ↦
      print (test_result r.test_baud (strtoul10 sent) r.test_recv)
        (record r { test_active = false })
  | none ↦ if is_text text (codes "__DONE__") then print test_done r else count_or_show text r
]

-- A complete message.
unfoldable pub dispatch : List ℕ → PicoReceiver → PicoReceiver
dispatch text r = elim (behind (codes "__BAUD:") text) [
  | some rate ↦
      let baud = strtoul10 rate in
      if baud_is_sane baud then print (baud_switch baud) (record r { current_baud = baud }) else r
  | none ↦
      if is_text text (codes "__TEST_START__")
      then print (test_start r.current_baud)
          (record r { test_active = true; test_recv = 0; test_baud = r.current_baud })
      else end_test text r
]

-- A byte of a message, of which 511 fit.
unfoldable pub take_payload : ℕ → PicoReceiver → PicoReceiver
take_payload byte r =
    let counted = record r { msg_count = u32 (r.msg_count + 1) } in
    if (byte == 10) || (byte == 13)
    then record (dispatch r.buf counted) { state = hunt }
    else if ltb (length r.buf) 511
    then record r { buf = r.buf ++ (byte ∷ []) }
    else record (print (truncated counted.msg_count (c_string r.buf)) counted) { state = hunt }

unfoldable pub receive_byte : ℕ → PicoReceiver → PicoReceiver
receive_byte byte r = elim r.state [
  | hunt ↦ record r { state = if byte == 0xAB then pre1 else hunt }
  | pre1 ↦ record r { state = if byte == 0xCD then pre2 else hunt }
  | pre2 ↦ record r { state = if byte == 0xEF then pre3 else hunt }
  | pre3 ↦
      if byte == 0x12 then record r { state = payload; buf = [] } else record r { state = hunt }
  | payload ↦ take_payload byte r
]

-- The upper eight bits of the word of the PIO, inverted.
abbrev pub byte_of : ℕ → ℕ
byte_of word = 255 - u8 (word / 2 ^ 24)

-- A round: a character that is typed, if there is one, and a word that is received, if there is
-- one.
unfoldable pub main_round : Option ℕ → Option ℕ → PicoReceiver → PicoReceiver
main_round typed word r =
    let r' : PicoReceiver = elim typed [ none ↦ r | some c ↦ usb_char c r ] in
    elim word [
      | none ↦ r'
      | some w ↦ if r'.raw_mode then print (raw (byte_of w)) r' else receive_byte (byte_of w) r'
    ]

-- The loop from the start on, the last round first.
unfoldable pub rounds : List (Option ℕ × Option ℕ) → PicoReceiver
rounds [] = boot
rounds ((typed, word) ∷ earlier) = main_round typed word (rounds earlier)

-- Bytes one after the other.
unfoldable pub receive_bytes : List ℕ → PicoReceiver → PicoReceiver
receive_bytes [] r = r
receive_bytes (b ∷ bs) r = receive_bytes bs (receive_byte b r)
