-- ===== src/Tests/Host.antt =====
-- The theorems on the receiver's loop and on its meetings with the sender, at concrete inputs.
use lifi_auth.Common.{
  ℕ, ◌+◌, ◌*◌, ◌^◌, ◌≡◌, refl, arith, true, Option, some, none, List, [], ◌∷◌, ◌++◌,
}
use lifi_auth.Common.{All, zero, suc, be16, length, take, replicate, zeros}
use lifi_auth.Flash.Device.{sim_flash}
use lifi_auth.Flash.Slots.{IsKeyPair}
use lifi_auth.Handshake.Drain.{next_byte, drain}
use lifi_auth.Handshake.Drain.Ends.{drain-ends}
use lifi_auth.Handshake.Drain.Link.{drain-send_key}
use lifi_auth.Handshake.Provision.{IsProvisioned}
use lifi_auth.Host.{Host, SessionKey, WriteResult, interrupted, failed, wrote, s_key}
use lifi_auth.Host.Keyboard.{Key, rotate, verify, press}
use lifi_auth.Host.Port.{write_all, port_write, write_both, send_key}
use lifi_auth.Host.Port.Laws.{write_all-prefix}
use lifi_auth.Host.Sound.{IsSound}
use lifi_auth.Host.Sound.Rounds.{Run, begin, round}
use lifi_auth.Host.Start.{declared, host_start}
use lifi_auth.Host.Start.Reached.{host_start-IsSound, IsOver, reached-IsSound, check_timeout-IsOver}
use lifi_auth.Host.Step.{host_step, check_timeout}
use lifi_auth.Mutual.{IsShared}
use lifi_auth.Mutual.Agree.{IsQuick, IsAgreed, handshake-IsAgreed}
use lifi_auth.Pico.{Pico}
use lifi_auth.ReplayWindow.Recent.{IsNonce}
use lifi_auth.Receiver.{receive_packet}
use lifi_auth.Receiver.Counts.{IsSoundRx, receive_packet-IsSoundRx}
use lifi_auth.Uart.{Poll}
use lifi_auth.Uart.Laws.{arriving}
use lifi_auth.Tests.Platform.{clear_text, clear_text-IsLawful, fast_env, id_1, key_1, fresh_pico}
use lifi_auth.Tests.Exchange.{clear_sst, clear_sst-IsSstLawful, clear_text-IsWorking}

abbrev polls_ms : ℕ → ℕ
polls_ms ms = ms

rows : (n : ℕ) → All IsNonce (replicate n (zeros 12))
rows zero = tt
rows (suc n) = (refl, rows n)

abbrev port : Option (List Poll)
port = some (arriving (0xAB ∷ 0xCD ∷ []))

-- Four writes for the key at the start, and those of a handshake.
abbrev writes : List WriteResult
writes = wrote 7 ∷ wrote 8 ∷ wrote 16 ∷ wrote 32 ∷ wrote 7 ∷ wrote 72 ∷ wrote 7 ∷ wrote 80 ∷ []

abbrev started : Host
started = host_start clear_sst (replicate 64 (zeros 12)) port writes

abbrev after : Option Host → Host
after none = started
after (some h) = h

abbrev step : ℕ → Key → Host → Option Host
step now key h = host_step clear_text polls_ms clear_sst now 100 [] key h

-- Two rounds: a handshake is begun with the byte of a preamble, and then the key is rotated.
abbrev once : Host
once = after (step 5 verify started)

abbrev twice : Host
twice = after (step 9 rotate once)

two_rounds : Run clear_text polls_ms clear_sst 0 started 2 9 twice
unfolding host_step press
two_rounds =
    round 9 100 [] rotate (round 5 100 [] verify begin (omega arith) refl) (omega arith) refl

reached-IsSound_example : IsSound 2 9 twice
reached-IsSound_example =
    reached-IsSound clear_sst (replicate 64 (zeros 12)) (omega arith) (rows 64) port writes
      clear_text polls_ms 0 2 9 twice (omega arith) two_rounds

twice-IsSound : IsSound 2 9 twice
twice-IsSound =
    reached-IsSound clear_sst (replicate 64 (zeros 12)) (omega arith) (rows 64) port writes
      clear_text polls_ms 0 2 9 twice (omega arith) two_rounds

check_timeout-IsOver_example : IsOver twice (check_timeout (9 + 5 * 10 ^ 9) twice)
check_timeout-IsOver_example =
    check_timeout-IsOver 2 9 (9 + 5 * 10 ^ 9) twice twice-IsSound (omega arith)

receive_packet-IsSoundRx_example :
    IsSoundRx true 1 0
      (receive_packet clear_text polls_ms 2
        (record (started.rx) { input = arriving (0 ∷ 40 ∷ replicate 42 7); key_valid = true })).1
receive_packet-IsSoundRx_example =
    receive_packet-IsSoundRx clear_text polls_ms true 2 0
      (record (started.rx) { input = arriving (0 ∷ 40 ∷ replicate 42 7); key_valid = true })
      (omega arith)
      (record {
        window =
            (host_start-IsSound clear_sst (replicate 64 (zeros 12)) (omega arith) (rows 64) port
              writes 0).rx.window;
        counts =
            (host_start-IsSound clear_sst (replicate 64 (zeros 12)) (omega arith) (rows 64) port
              writes 0).rx.counts;
        within =
            (host_start-IsSound clear_sst (replicate 64 (zeros 12)) (omega arith) (rows 64) port
              writes 0).rx.within;
        key = λ shown. refl;
      })

write_all-prefix_example :
    ((unsent : List ℕ) × ((write_all (wrote 1 ∷ interrupted ∷ failed ∷ []) id_1).1 ++ unsent
        ≡ id_1))
    × ((write_all (wrote 1 ∷ interrupted ∷ failed ∷ []) id_1).0 ≡ true
        → (write_all (wrote 1 ∷ interrupted ∷ failed ∷ []) id_1).1 ≡ id_1)
write_all-prefix_example = write_all-prefix (wrote 1 ∷ interrupted ∷ failed ∷ []) id_1

abbrev key_a : SessionKey
key_a = record { key_id = id_1; cipher_key = key_1; mac_key = replicate 32 9 }

abbrev hs1_frame : List ℕ
hs1_frame = 0xAB ∷ 0xCD ∷ 0xEF ∷ 0x12 ∷ 0x08 ∷ (be16 72 ++ replicate 70 1)

drain-ends_example :
    next_byte
      (drain sim_flash clear_text fast_env 77 0
        (record fresh_pico { uart = arriving hs1_frame })).1.uart
    ≡ none
drain-ends_example =
    drain-ends sim_flash clear_text fast_env 77 0 (record fresh_pico { uart = arriving hs1_frame })
      (omega arith)

-- A host whose port takes a key.
abbrev ready_host : Host
ready_host = declared (replicate 64 (zeros 12)) port writes

told : (send_key key_a ready_host).0 ≡ true
unfolding send_key write_both port_write write_all declared
told = refl

pair : IsKeyPair id_1 (take 16 key_1)
pair = record { id_size = refl; key_size = refl; id_bytes = omega arith; key_bytes = omega arith }

drain-send_key_example :
    (bytes : List ℕ) × ((send_key key_a ready_host).1.sent ≡ ready_host.sent ++ bytes)
    × IsProvisioned sim_flash clear_text fast_env id_1
        (take 16 key_1)
        (replicate 32 9)
        (replicate 8 0)
        (drain sim_flash clear_text fast_env
          (length bytes)
          2
          (record fresh_pico { uart = arriving bytes ++ [] })).1
drain-send_key_example =
    drain-send_key sim_flash clear_text fast_env clear_text-IsLawful key_a ready_host 2
      (replicate 8 0) fresh_pico told pair refl (omega arith) (omega arith) (omega arith) refl

-- The two sides of a handshake.
abbrev host_a : Host
host_a = record started {
  rx = record (started.rx) { cipher_key = key_1; key_valid = true };
  key_id = id_1;
  mac_key = replicate 32 9;
  writes = wrote 7 ∷ wrote 72 ∷ wrote 7 ∷ wrote 80 ∷ [];
  calls = 1;
}

abbrev pico_a : Pico sim_flash
pico_a = record fresh_pico {
  session_key = key_1;
  session_key_id = id_1;
  session_mac_key = replicate 32 9;
}

shared : IsShared sim_flash (s_key host_a) pico_a
shared = record { id = refl; id_size = refl; cipher = refl; mac = refl }

quick : IsQuick sim_flash clear_text fast_env polls_ms
quick = record {
  sender_length = omega arith;
  sender_payload = omega arith;
  host_length = omega arith;
  host_payload = omega arith;
}

handshake-IsAgreed_example :
    IsAgreed sim_flash clear_text fast_env polls_ms clear_sst 5 0 3 [] host_a pico_a
handshake-IsAgreed_example =
    handshake-IsAgreed sim_flash clear_text fast_env clear_text-IsLawful clear_text-IsWorking
      polls_ms quick clear_sst clear_sst-IsSstLawful 5 0 3 id_1 _ [] [] host_a pico_a shared refl
      refl (omega arith) (omega arith)
