-- ===== src/Tests/Link.antt =====
-- The theorems on messages, from the sender's line to the receiver's text, at concrete inputs.
use lifi_auth.Common.{u64}
use lifi_auth.Common.{
  ℕ, ◌≡◌, ◌+◌, ◌++◌, refl, arith, true, false, some, List, [], ◌∷◌, zeros, replicate, drop,
  bytes_eq,
}
use lifi_auth.Crypto.{sst_encrypt_gcm}
use lifi_auth.Flash.Device.{sim_flash}
use lifi_auth.KeyRam.{is_key_zeroed}
use lifi_auth.Nonce.{pico_nonce_generate, store_be32}
use lifi_auth.Pico.{Pico}
use lifi_auth.ReplayWindow.{replay_window_init, replay_window_seen, replay_window_add}
use lifi_auth.ReplayWindow.Recent.{IsValid, recent, contains, oldest_first}
use lifi_auth.Sender.{send_text, send_id, msg_type_key_id_only}
use lifi_auth.Sender.Compress.{Encoder, IsPolled, IsChoice, auto_compress, auto_compress-returns}
use lifi_auth.Sender.Laws.{frame, sent, send_id-sent}
use lifi_auth.Receiver.{Receiver, text, nonce_replayed, find_packet, receive_packet}
use lifi_auth.Receiver.Laws.{receive_packet-replayed}
use lifi_auth.Console.{read_line, push}
use lifi_auth.Console.Bounds.{IsLine, read_line-IsLine}
use lifi_auth.Common.{Option, none}
use lifi_auth.Receiver.Delivery.{IsLinked, receive-send}
use lifi_auth.Uart.Laws.{arriving}
use lifi_auth.Tests.Platform.{clear_text, clear_text-IsLawful, id_1, key_1, fresh_pico}

-- A compressor that drops everything.
abbrev dropping : Encoder
dropping = record {
  Handle = ℕ;
  alloc = some 0;
  sink = λ h bs. h;
  poll = λ h space. (false, [], h);
  finish = λ h. (false, h);
}

dropping-IsPolled : IsPolled dropping
dropping-IsPolled = record { fits = λ h space. omega arith; fills = λ h space no. cc }

auto_compress-returns_example :
    (r : List ℕ × ℕ) × (auto_compress dropping (replicate 129 7) ≡ some r)
    × IsChoice dropping (replicate 129 7) r
auto_compress-returns_example = auto_compress-returns dropping dropping-IsPolled (replicate 129 7)

abbrev keyed : Pico sim_flash
keyed = record fresh_pico {
  session_key = key_1;
  session_key_id = id_1;
  nonce = record { boot_salt = id_1; msg_counter = 258; rebooting = false };
}

send_id-sent_example : send_id keyed ≡ sent (frame msg_type_key_id_only id_1) keyed
send_id-sent_example = send_id-sent keyed refl

abbrev listening : Receiver
listening = record {
  cipher_key = key_1 ++ zeros 16;
  key_valid = true;
  rwin = replay_window_init (replicate 2 (zeros 12)) 12 2;
  stats = record { total_pkts = 0; decrypt_success = 0; decrypt_fail = 0; replay_blocked = 0 };
  input = [];
}

abbrev polls_ms : ℕ → ℕ
polls_ms ms = ms

abbrev note : List ℕ
note = 104 ∷ 105 ∷ []

linked : IsLinked clear_text clear_text-IsLawful polls_ms note keyed listening
unfolding is_key_zeroed replay_window_seen replay_window_init pico_nonce_generate store_be32
    bytes_eq
linked = record {
  room = omega arith;
  fast = record { header = omega arith; part = omega arith; text = omega arith };
  salt_size = refl;
  salt_bytes = omega arith;
  usable = refl;
  valid = refl;
  same_key = refl;
  fresh = refl;
}

receive-send_example :
    (bytes rest : List ℕ) × ((send_text clear_text note 2 keyed).lifi ≡ keyed.lifi ++ bytes)
    × (find_packet 0 (arriving bytes ++ []) ≡ some (2, arriving rest ++ []))
    × (receive_packet clear_text polls_ms 2 (record listening { input = arriving rest ++ [] }) ≡ (
      text 2 note,
      record listening {
        rwin = replay_window_add listening.rwin (pico_nonce_generate keyed.nonce).0;
        input = [];
        stats = record (listening.stats) {
          total_pkts = u64 (listening.stats.total_pkts + 1);
          decrypt_success = u64 (listening.stats.decrypt_success + 1);
        };
      },
    ))
receive-send_example =
    receive-send clear_text clear_text-IsLawful polls_ms note note (zeros 16) 2 0 keyed listening []
      linked (omega arith) (omega arith) (unfold sst_encrypt_gcm in refl)

valid : IsValid listening.rwin
unfolding replay_window_init
valid = record { size = refl; fits = omega arith; inside = omega arith; rows = (refl, (refl, tt)) }

old : contains (recent listening.rwin) (zeros 12) ≡ true
unfolding replay_window_init contains recent oldest_first bytes_eq
old = refl

receive_packet-replayed_example :
    receive_packet clear_text polls_ms 2 (record listening {
      input = arriving (drop 5 (frame 2 (zeros 12 ++ (note ++ zeros 16)))) ++ [];
    })
    ≡ (
      nonce_replayed,
      record listening {
        input = [];
        stats = record (listening.stats) {
          total_pkts = u64 (listening.stats.total_pkts + 1);
          replay_blocked = u64 (listening.stats.replay_blocked + 1);
        };
      },
    )
receive_packet-replayed_example =
    receive_packet-replayed clear_text polls_ms 2 (zeros 12) note (zeros 16) listening []
      (omega arith) (omega arith) refl refl (omega arith)
      (record { header = omega arith; part = omega arith; text = omega arith }) valid old

-- The letters h and i, a backspace, and Enter.
abbrev typed : List (Option ℕ)
typed = some 104 ∷ some 105 ∷ some 8 ∷ some 13 ∷ none ∷ []

read_line-IsLine_example : IsLine (104 ∷ [])
read_line-IsLine_example = read_line-IsLine typed (104 ∷ []) [] (unfold read_line push in refl)
