-- ===== src/Tests/Server.antt =====
-- The theorems on the receiver's server and its messages for the dashboard, at concrete inputs.
use lifi_auth.Common.{ℕ, ◌≡◌, refl, arith, true, false, none, some, List, [], ◌∷◌, ◌++◌}
use lifi_auth.Common.{codes, replicate, zeros}
use lifi_auth.Control.{Shared, ReporterKey, reporter_key, handle_status_request}
use lifi_auth.Control.Signed.{
  verify_signed_request, check_headers, check_signed, extract_header, skew,
}
use lifi_auth.Control.Text.{
  after, strip_prefix, take_until, skip_chars, strtoll10, digits10, decode_hex, scan_02x,
}
use lifi_auth.Commands.Strtoul.{
  strtoul16, digits_from, hex_value, skip_prefix, skip_spaces, starts_digit,
}
use lifi_auth.Crypto.{sst_hmac_sha256_ex}
use lifi_auth.ReplayWindow.Laws.{init-IsValid}
use lifi_auth.Common.{bytes_eq, All, zero, suc}
use lifi_auth.Reporter.Fifo.{IsRing, post, fetch, fetched, fetched_fifo, waiting, fetched-fifo}
use lifi_auth.ReplayWindow.{Window, replay_window_init, replay_window_add, replay_window_seen}
use lifi_auth.ReplayWindow.Recent.{IsValid, IsNonce}
use lifi_auth.Control.Replayed.{Request, verify, verify_all, verify_signed_request-replayed}
use lifi_auth.Common.{◌<◌}
use lifi_auth.Control.{handle_force_key_request, pushed_key}
use lifi_auth.Control.Pushed.{push_body}
use lifi_auth.Control.Pushed.Adopted.{IsUsing, status_answer, loop_step-pushed}
use lifi_auth.Control.Queued.{loop_step}
use lifi_auth.Host.{Host, wrote, failed}
use lifi_auth.Host.Start.{declared}
use lifi_auth.Tests.Platform.{clear_text, id_1, key_1}
use lifi_auth.Tests.Exchange.{clear_sst, clear_text-IsWorking}

abbrev polls_ms : ℕ → ℕ
polls_ms ms = ms

abbrev with_key : ReporterKey
with_key = record {
  rep_mac_key = zeros 32;
  rep_key_valid = true;
  key_id_hex = codes "0102030405060708";
}

abbrev no_requests : Shared
no_requests = record { current_baud = 1000000; force_request = none; baud_request = none }

abbrev window : Window
window = replay_window_init (replicate 16 (zeros 12)) 12 16

-- A request for "/status" at the time 100. Its code is the sum of the bytes that are signed.
abbrev request : List ℕ
request =
    codes
      "GET /status HTTP/1.1\nX-SST-Timestamp: 90\nX-SST-Nonce: 0102030405060708090a0b0c\nX-SST-HMAC: "
    ++ codes "f3f3f3f3f3f3f3f3f3f3f3f3f3f3f3f3f3f3f3f3f3f3f3f3f3f3f3f3f3f3f3f3\n"

ring : IsRing (record { slots = replicate 32 []; head = 31; tail = 31; count = 0 })
ring = record { size = refl; inside = omega arith; fits = omega arith; ends = refl }

fetched-fifo_example :
    fetched
      (post (codes "a") ∷ post (codes "b") ∷ fetch ∷ fetch ∷ fetch ∷ [])
      (record { slots = replicate 32 []; head = 31; tail = 31; count = 0 })
    ≡ fetched_fifo
        (post (codes "a") ∷ post (codes "b") ∷ fetch ∷ fetch ∷ fetch ∷ [])
        (waiting (record { slots = replicate 32 []; head = 31; tail = 31; count = 0 }))
fetched-fifo_example =
    fetched-fifo (post (codes "a") ∷ post (codes "b") ∷ fetch ∷ fetch ∷ fetch ∷ [])
      (record { slots = replicate 32 []; head = 31; tail = 31; count = 0 }) ring

accepted :
    (verify_signed_request clear_text 100 [] request (codes "/status") [] 0 with_key window).0
    ≡ true
unfolding verify_signed_request check_headers extract_header after strip_prefix take_until
    skip_chars skew strtoll10 digits10 decode_hex scan_02x strtoul16 check_signed replay_window_seen
    replay_window_init bytes_eq digits_from hex_value skip_prefix skip_spaces starts_digit
    sst_hmac_sha256_ex replay_window_add
accepted = refl

rows : (n : ℕ) → All IsNonce (replicate n (zeros 12))
rows zero = tt
rows (suc n) = (refl, rows n)

valid : IsValid window
valid = (init-IsValid (replicate 16 (zeros 12)) 16 (rows 16) (omega arith) (omega arith)).0

few : 2 < window.cap
unfolding replay_window_init
few = omega arith

-- The request at its time; another that is refused; and the first again, later, with another body.
abbrev first : Request
first = record {
  now = 100;
  buffer = [];
  buf = request;
  path = codes "/status";
  body = [];
  body_len = 0;
  key = with_key;
}

abbrev other : Request
other = record first { buf = codes "GET /status HTTP/1.1" }

abbrev again : Request
again = record first { now = 110; body = 1 ∷ []; body_len = 1 }

verify_signed_request-replayed_example :
    (verify clear_text again
      (verify_all clear_text (other ∷ other ∷ []) (verify clear_text first window).1)).0
    ≡ false
verify_signed_request-replayed_example =
    verify_signed_request-replayed clear_text clear_text-IsWorking.codes first again
      (other ∷ other ∷ []) window valid accepted few refl

-- A receiver with nothing to read.
abbrev receiver : Host
receiver = declared (replicate 64 (zeros 12)) (some []) (wrote 7 ∷ wrote 8 ∷ failed ∷ [])

nothing : receiver.rx.input ≡ []
unfolding declared
nothing = refl

loop_step-pushed_example :
    (h' : Host) × (loop_step clear_text polls_ms clear_sst 5 100 [] none none
        (handle_force_key_request (push_body id_1 key_1 (replicate 32 9)) no_requests).1
        receiver
      ≡ (some h', record no_requests { force_request = none }))
    × IsUsing (pushed_key id_1 key_1 (replicate 32 9)) h'
    × (handle_status_request (reporter_key h') (record no_requests { force_request = none })
        ≡ status_answer id_1 1000000)
loop_step-pushed_example =
    loop_step-pushed clear_text polls_ms clear_sst 5 100 [] id_1 key_1 (replicate 32 9) none
      no_requests receiver refl refl refl (omega arith) (omega arith) (omega arith) nothing
