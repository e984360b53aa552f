-- ===== src/Host/Port/Laws.antt =====
-- What reaches the port.
use lifi_auth.Common.{
  ℕ, zero, suc, ◌≡◌, refl, ap, ◌∙◌, Bool, true, false, List, [], ◌∷◌, ◌++◌, take, drop,
}
use lifi_auth.Common.{append_assoc, take-drop, if◌then◌else◌}
use lifi_auth.Host.{WriteResult, interrupted, failed, wrote, Host, SessionKey}
use lifi_auth.Host.Port.{write_all, port_write, header, write_both, send_key}

-- Whatever the results of `write`, what is written is a beginning of the bytes, and all of them
-- if success is reported.
pub write_all-prefix :
    (results : List WriteResult) (bytes : List ℕ)
    → ((unsent : List ℕ) × ((write_all results bytes).1 ++ unsent ≡ bytes))
      × ((write_all results bytes).0 ≡ true → (write_all results bytes).1 ≡ bytes)
unfolding write_all
write_all-prefix results [] = (([], refl), (λ ok. refl))
write_all-prefix [] (b ∷ bytes) = ((b ∷ bytes, refl), (λ ok. cc))
write_all-prefix (interrupted ∷ results) (b ∷ bytes) = write_all-prefix results (b ∷ bytes)
write_all-prefix (failed ∷ results) (b ∷ bytes) = ((b ∷ bytes, refl), (λ ok. cc))
write_all-prefix (wrote zero ∷ results) (b ∷ bytes) = ((b ∷ bytes, refl), (λ ok. cc))
write_all-prefix (wrote (suc n) ∷ results) (b ∷ bytes) =
    let front : List ℕ = take (suc n) (b ∷ bytes) in
    let back : List ℕ = drop (suc n) (b ∷ bytes) in
    let whole : front ++ back ≡ b ∷ bytes = take-drop (suc n) (b ∷ bytes) in
    let ((unsent, split), complete) = write_all-prefix results back in
    (
      (
        unsent,
        append_assoc front (write_all results back).1 unsent ∙ ap (λ t. front ++ t) split ∙ whole,
      ),
      (λ ok. ap (λ t. front ++ t) (complete ok) ∙ whole),
    )

pub port_write-sent :
    (bytes : List ℕ) (h : Host)
    → (port_write bytes h).0 ≡ true
    → (port_write bytes h).1.sent ≡ h.sent ++ bytes
unfolding port_write
port_write-sent bytes h ok = ap (λ t. h.sent ++ t) ((write_all-prefix h.writes bytes).1 ok)

-- A sequence of two reports success if both do.
then_both :
    (a : Bool) (r : Bool × Host) (h : Host)
    → (let q : Bool × Host = if a then r else (false, h) in q.0) ≡ true
    → (a ≡ true) × (r.0 ≡ true)
then_both true r h ok = (refl, ok)
then_both false r h ok = cc

pub write_both-sent :
    (first second : List ℕ) (h : Host)
    → (write_both first second h).0 ≡ true
    → (write_both first second h).1.sent ≡ h.sent ++ (first ++ second)
unfolding write_both
write_both-sent first second h ok =
    let h' = (port_write first h).1 in
    let (front, back) = then_both (port_write first h).0 (port_write second h') h' ok in
    rw front (
      port_write-sent second h' back
      ∙ ap (λ t. t ++ second) (port_write-sent first h front)
      ∙ append_assoc h.sent first second)

-- The key frame as it goes over the wire.
abbrev pub key_frame : SessionKey → List ℕ
key_frame k = header 0x10 56 ++ (take 8 k.key_id ++ (take 16 k.cipher_key ++ take 32 k.mac_key))

-- If sending a key reports success, exactly its frame has been written.
pub send_key-sent :
    (k : SessionKey) (h : Host)
    → (send_key k h).0 ≡ true
    → (send_key k h).1.sent ≡ h.sent ++ key_frame k
unfolding send_key
send_key-sent k h ok =
    let head = write_both (header 0x10 56) (take 8 k.key_id) h in
    let tail = write_both (take 16 k.cipher_key) (take 32 k.mac_key) head.1 in
    let (front, back) = then_both head.0 tail head.1 ok in
    rw front (
      write_both-sent (take 16 k.cipher_key) (take 32 k.mac_key) head.1 back
      ∙ ap (λ t. t ++ (take 16 k.cipher_key ++ take 32 k.mac_key))
          (write_both-sent (header 0x10 56) (take 8 k.key_id) h front)
      ∙ append_assoc h.sent (header 0x10 56 ++ take 8 k.key_id) _)
