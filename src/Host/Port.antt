-- ===== src/Host/Port.antt =====
-- receiver/src/dash_receiver.c: `write_all`, and the key frame that several places send.
pub mod Laws
use lifi_auth.Common.{ℕ, zero, suc, Bool, true, false, ◌&&◌, List, [], ◌∷◌, ◌++◌, take, drop, be16}
use lifi_auth.Common.{if◌then◌else◌}
use lifi_auth.Host.{WriteResult, interrupted, failed, wrote, Host, SessionKey}

-- Whether all was written, what was written, and the results left. A list of results that has run
-- out is a port that fails.
unfoldable pub write_all : List WriteResult → List ℕ → Bool × List ℕ × List WriteResult
write_all results [] = (true, [], results)
write_all [] (b ∷ bytes) = (false, [], [])
write_all (interrupted ∷ results) (b ∷ bytes) = write_all results (b ∷ bytes)
write_all (failed ∷ results) (b ∷ bytes) = (false, [], results)
write_all (wrote zero ∷ results) (b ∷ bytes) = (false, [], results)
write_all (wrote (suc n) ∷ results) (b ∷ bytes) =
    let (ok, more, rest) = write_all results (drop (suc n) (b ∷ bytes)) in
    (ok, take (suc n) (b ∷ bytes) ++ more, rest)

-- `write_all` on the open port.
unfoldable pub port_write : List ℕ → Host → Bool × Host
port_write bytes h =
    let (ok, written, rest) = write_all h.writes bytes in
    (ok, record h { sent = h.sent ++ written; writes = rest })

-- Preamble, type and length.
abbrev pub header : ℕ → ℕ → List ℕ
header type len = 0xAB ∷ 0xCD ∷ 0xEF ∷ 0x12 ∷ type ∷ be16 len

-- Two writes, the second only if the first is complete.
unfoldable pub write_both : List ℕ → List ℕ → Host → Bool × Host
write_both first second h =
    let (ok, h') = port_write first h in
    let rest = port_write second h' in if ok then rest else (false, h')

-- The key frame: header, ID, the first 16 bytes of the cipher key, and the MAC key. Whether all
-- of it was written.
unfoldable pub send_key : SessionKey → Host → Bool × Host
send_key k h =
    let (ok, h') = write_both (header 0x10 56) (take 8 k.key_id) h in
    let rest = write_both (take 16 k.cipher_key) (take 32 k.mac_key) h' in
    if ok then rest else (false, h')

-- The same with no look at the results.
unfoldable pub send_key_blindly : SessionKey → Host → Host
send_key_blindly k h =
    let h₁ = (port_write (header 0x10 56) h).1 in
    let h₂ = (port_write (take 8 k.key_id) h₁).1 in
    let h₃ = (port_write (take 16 k.cipher_key) h₂).1 in (port_write (take 32 k.mac_key) h₃).1
