-- ===== src/Lib.antt =====
-- LiFi-auth: a Pico that sends encrypted frames over light, and a host that receives them.
--
-- The sender keeps session keys in two flash slots, encrypts each message with AES-GCM under a
-- fresh nonce, and frames it with a checksum; the receiver checks the checksum, refuses nonces it
-- has seen, and decrypts. Text commands over USB manage the sender's keys.
--
-- Parts, with the code each file models:
-- - Common: numbers, lists and bytes that the parts share. A byte string is a list of numbers, a
--   w-bit word a number with its wrap-around written out; the counters of the programs on the host
--   are `unsigned long`, taken as 64 bits.
-- - Crc: include/crc16.h. The loops over bits and bytes are structural recursion.
-- - ReplayWindow: receiver/include/replay_window.h and receiver/src/replay_window.c.
-- - Nonce: the nonce functions of src/pico_handler.c.
-- - Crypto: src/sst_crypto_embedded.c over a record `Mbedtls` of the library's functions. What
--   the wrappers rely on is the record `IsLawful`: digests are 32 bytes, decryption undoes
--   encryption. Nothing is assumed of secrecy.
-- - Flash: the key slots and the index page of src/pico_handler.c, over a device with the laws of
--   erasing and programming (Flash/Device). `view` is the store as its clients see it.
-- - Uart: reads with a deadline, in src/pico_handler.c and sender/src/lifi_session_sender.c. The
--   input is the list of what the polls of the UART find; a deadline is a number of polls.
-- - KeyRam: the key in RAM, of src/pico_handler.c.
-- - Pico: the state that the firmware keeps, and the LED mask.
-- - Commands: src/cmd_handler.c.
-- - Sender: how `main` of sender/src/lifi_session_sender.c sends a message or the key ID. What
--   compresses long messages is a record `Encoder` of the library's calls (Sender/Compress).
-- - Receiver: how `main` of receiver/src/dash_receiver.c finds packets and opens encrypted ones.
--   Sender and receiver meet in Receiver/Delivery.
-- - Handshake: what `main` of the sender does with frames from its UART: handshake steps 1 and 3,
--   and keys. `take_byte` is one round of its switch, Handshake/Drain the loop around it.
-- - Host: the start and the loop of `main` of receiver/src/dash_receiver.c, over a record `Sst` of
--   the calls of the library SST. `host_step` is a round: a key or a queued request
--   (Host/Keyboard), the deadline of the state, and a byte (Host/Step), which may be the type of a
--   packet (Host/Packets) or lead to a text (Host/Texts). A round has one reading of each clock.
-- - Control: the server of receiver/src/dash_receiver.c for requests of the dashboard, from the bytes
--   that are received to the response; Control/Signed is the signature of requests, Control/Queued
--   how the main loop takes a request; what the server sees of the key in use is read off the
--   variables of the main loop (`reporter_key`). What `sscanf`, `strtoll` and `atoi` do is written
--   out as the C library of Linux does it.
-- - Reporter: the queue of status messages for the dashboard.
-- - Mutual: the handshake between the host and the sender. What SST makes of its messages is the
--   record `IsSstLawful`, after the formats in the comments of the two programs.
-- - KeyManager: receiver/src/keys_receiver.c, the host program that only fetches and sends keys;
--   `handle_shortcut` is what it does for a key that is pressed.
-- - PicoReceiver: receiver_pico/src/main.c, the receiver on a board, which prints over USB what it
--   receives; `main_round` is a round of its loop.
-- - Console: the line editor of the sender's `main`, and what it does with a line.
-- - Tests: the theorems at concrete inputs, on a simulated board.
--
-- Failures are `none` or `false`, as the C code returns them. What only prints is left out, and
-- so are copies of secrets that the code wipes after use where nothing reads them again. Loops are
-- recursion on their input; `poll_all` has fuel for 2 rounds, which is enough for a compressor
-- that says there is more only when it has filled the buffer, and `send_chunks` has fuel for as
-- many rounds as there are bytes; `drain` has fuel for as many rounds as there are polls left.
--
-- Not modelled: the start of the sender, the displays and sockets of the programs on the host, the
-- interleaving of their threads, the vendored heatshrink library, hardware set-up, and the senders
-- that measure speed.
pub mod Common
pub mod Crc
pub mod ReplayWindow
pub mod Nonce
pub mod Crypto
pub mod Flash
pub mod Uart
pub mod KeyRam
pub mod Pico
pub mod Commands
pub mod Sender
pub mod Receiver
pub mod Handshake
pub mod Console
pub mod Host
pub mod Mutual
pub mod Control
pub mod KeyManager
pub mod PicoReceiver
pub mod Reporter
mod Tests
