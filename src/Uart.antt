-- ===== src/Uart.antt =====
-- The two receive loops of the firmware over a UART: `uart_read_blocking_timeout_us` of
-- sender/src/lifi_session_sender.c and `receive_new_key_with_timeout` of src/pico_handler.c.
--
-- Time passes in polls. A stream lists what each later poll of the UART finds, and a deadline
-- is a number of polls; behind the end of the stream nothing arrives.
pub mod Laws
use lifi_auth.Common.{ℕ, zero, suc, Bool, true, false, Option, some, none, List, [], ◌∷◌, ◌++◌}
use lifi_auth.Common.{◌==◌, ◌&&◌, if◌then◌else◌, length, take, drop}

pub data Poll : Type 0 where
  idle : Poll
  ready : ℕ → Poll

-- `while (received < len)` within a window of polls: the bytes that came, and the polls left.
unfoldable pub collect : ℕ → List Poll → List ℕ × List Poll
collect zero ps = ([], ps)
collect (suc n) [] = ([], [])
collect (suc n) (idle ∷ ps) = collect (suc n) ps
collect (suc n) (ready b ∷ ps) = let (bs, rest) = collect n ps in (b ∷ bs, rest)

-- `len` bytes before the deadline, or a timeout.
unfoldable pub uart_read_blocking_timeout : ℕ → ℕ → List Poll → Option (List ℕ) × List Poll
unfolding collect
uart_read_blocking_timeout deadline len ps =
    let (bs, rest) = collect len (take deadline ps) in
    (if length bs == len then some bs else none, rest ++ drop deadline ps)

-- `while (uart_is_readable(…)) uart_getc(…)`.
unfoldable pub flush : List Poll → List Poll
flush [] = []
flush (idle ∷ ps) = idle ∷ ps
flush (ready b ∷ ps) = flush ps

-- The ID and then the key, once the two preamble bytes 0xAB 0xCD have been seen.
unfoldable pub receive_pair : List Poll → Option (List ℕ × List ℕ) × List Poll
unfolding collect
receive_pair ps =
    let (id, ps') = collect 8 ps in
    let (key, ps'') = collect 16 ps' in
    (if (length id == 8) && (length key == 16) then some (id, key) else none, ps'')

-- The hunt for the preamble, and with `second` the wait for its other byte.
unfoldable pub hunt_pair : Bool → List Poll → Option (List ℕ × List ℕ) × List Poll
unfolding receive_pair
hunt_pair second [] = (none, [])
hunt_pair second (idle ∷ ps) = hunt_pair second ps
hunt_pair false (ready b ∷ ps) = hunt_pair (b == 0xAB) ps
hunt_pair true (ready b ∷ ps) =
    let again = hunt_pair false ps in if b == 0xCD then receive_pair ps else again

unfoldable pub receive_new_key_with_timeout : ℕ → List Poll → Option (List ℕ × List ℕ) × List Poll
unfolding hunt_pair
receive_new_key_with_timeout deadline ps =
    let (got, rest) = hunt_pair false (take deadline ps) in (got, rest ++ drop deadline ps)
