-- ===== src/Control/Replayed.antt =====
-- A signed request that comes again.
use lifi_auth.Common.{
  ℕ, zero, suc, ◌+◌, ◌≤◌, ◌<◌, ◌≡◌, refl, sym, ◌∙◌, ap, subst, arith, Bool, true, false, Option,
  some, none,
}
use lifi_auth.Common.{
  List, [], ◌∷◌, codes, length, take, ltb, ◌==◌, ◌&&◌, ◌⊎◌, inl, inr, if◌then◌else◌,
}
use lifi_auth.Common.{
  bytes_eq, bytes_eq_refl, Bool-cases, Option-cases, some_eq, if_both, option_both,
}
use mathlib.Core.Bool.{false≢true}
use lifi_auth.Crypto.{Mbedtls, sst_hmac_sha256_ex}
use lifi_auth.ReplayWindow.{Window, replay_window_seen, replay_window_add}
use lifi_auth.ReplayWindow.Recent.{IsValid, IsNonce, recent, contains}
use lifi_auth.ReplayWindow.Push.{add-IsValid, recent-add}
use lifi_auth.ReplayWindow.Seen.{seen-recent}
use lifi_auth.Control.{ReporterKey}
use lifi_auth.Control.Text.{decode_hex, strtoll10}
use lifi_auth.Control.Signed.{
  extract_header, skew, signed_text, check_signed, check_headers, verify_signed_request,
}
use lifi_auth.Control.Accepted.{decode_hex-size, verify_signed_request-IsSigned}

-- What is among the first stays among more.
contains-take_more :
    (k more : ℕ) (ns : List (List ℕ)) (n : List ℕ)
    → k ≤ more
    → contains (take k ns) n ≡ true
    → contains (take more ns) n ≡ true
unfolding contains
contains-take_more zero more ns n h c = cc
contains-take_more (suc k) zero ns n h c = absurd (omega arith)
contains-take_more (suc k) (suc more) [] n h c = c
contains-take_more (suc k) (suc more) (m ∷ ns) n h c = elim (Bool-cases (bytes_eq m n)) [
  | inl same ↦ rw same refl
  | inr other ↦
      let behind : contains (take k ns) n ≡ true = rw other at c in
      rw other (contains-take_more k more ns n (omega arith) behind)
]

contains-take_all :
    (k : ℕ) (ns : List (List ℕ)) (n : List ℕ) → contains (take k ns) n ≡ true → contains ns n ≡ true
unfolding contains
contains-take_all zero ns n c = cc
contains-take_all (suc k) [] n c = c
contains-take_all (suc k) (m ∷ ns) n c = elim (Bool-cases (bytes_eq m n)) [
  | inl same ↦ rw same refl
  | inr other ↦
      let behind : contains (take k ns) n ≡ true = rw other at c in
      rw other (contains-take_all k ns n behind)
]

take-take : (k more : ℕ) (ns : List (List ℕ)) → k ≤ more → take k (take more ns) ≡ take k ns
take-take zero more ns h = refl
take-take (suc k) zero ns h = absurd (omega arith)
take-take (suc k) (suc more) [] h = refl
take-take (suc k) (suc more) (m ∷ ns) h = ap (λ t. m ∷ t) (take-take k more ns (omega arith))

-- The nonce is among the last `k` of a valid window.
record IsAmong (n : List ℕ) (cap k : ℕ) (w : Window) : Type 0 where
  pub valid : IsValid w
  pub rows : w.cap ≡ cap
  pub found : contains (take k (recent w)) n ≡ true

IsAmong-seen :
    (n : List ℕ) (cap k : ℕ) (w : Window)
    → IsNonce n
    → IsAmong n cap k w
    → replay_window_seen w n ≡ true
IsAmong-seen n cap k w size a =
    seen-recent w n a.valid size ∙ contains-take_all k (recent w) n a.found

-- A nonce that has just been added is the first.
newest-IsAmong :
    (n : List ℕ) (w : Window) → IsNonce n → IsValid w → IsAmong n w.cap 1 (replay_window_add w n)
unfolding replay_window_add contains
newest-IsAmong n w size v = record {
  valid = add-IsValid w n v size;
  rows = refl;
  found =
      rw
        (
          ap (take 1) (recent-add w n v size),
          take-take 1 w.cap (n ∷ recent w) (omega (arith, v.inside)),
          bytes_eq_refl n,
        )
        refl;
}

-- Another nonce moves it back by one place.
add-IsAmong :
    (n m : List ℕ) (cap k : ℕ) (w : Window)
    → IsNonce m
    → suc k ≤ cap
    → IsAmong n cap k w
    → IsAmong n cap (suc k) (replay_window_add w m)
unfolding replay_window_add contains
add-IsAmong n m cap k w size room a = record {
  valid = add-IsValid w m a.valid size;
  rows = a.rows;
  found =
      let front : take (suc k) (recent (replay_window_add w m)) ≡ m ∷ take k (recent w) =
        ap (take (suc k)) (recent-add w m a.valid size)
        ∙ take-take (suc k) w.cap (m ∷ recent w) (omega (arith, room, a.rows)) in
      elim (Bool-cases (bytes_eq m n)) [
        | inl same ↦ rw (front, same) refl
        | inr other ↦ rw (front, other) (a.found)
      ];
}

-- A window as it was, or with one nonce more.
abbrev IsNext : Window → Window → Type 0
IsNext w w' = (w' ≡ w) ⊎ ((m : List ℕ) × IsNonce m × (w' ≡ replay_window_add w m))

next-IsAmong :
    (n : List ℕ) (cap k : ℕ) (w w' : Window)
    → suc k ≤ cap
    → IsNext w w'
    → IsAmong n cap k w
    → IsAmong n cap (suc k) w'
next-IsAmong n cap k w w' room (inr (m, size, added)) a =
    subst (IsAmong n cap (suc k)) (sym added) (add-IsAmong n m cap k w size room a)
next-IsAmong n cap k w w' room (inl same) a = subst (IsAmong n cap (suc k)) (sym same) (record {
  valid = a.valid;
  rows = a.rows;
  found = contains-take_more k (suc k) (recent w) n (omega arith) a.found;
})

-- A request as it reaches the server: the time, what the buffers hold, path and body, and the key
-- that the server sees.
pub record Request : Type 0 where
  pub now : ℕ
  pub buffer : List ℕ
  pub buf : List ℕ
  pub path : List ℕ
  pub body : List ℕ
  pub body_len : ℕ
  pub key : ReporterKey

module _ (m : Mbedtls) where
  abbrev pub verify : Request → Window → Bool × Window
  verify r w = verify_signed_request m r.now r.buffer r.buf r.path r.body r.body_len r.key w

  -- The window after requests, one after the other.
  unfoldable pub verify_all : List Request → Window → Window
  verify_all [] w = w
  verify_all (r ∷ rs) w = verify_all rs (verify r w).1

  check_signed-IsNext :
      (buffer text nonce hmac_hex : List ℕ) (g : ReporterKey) (w : Window)
      → IsNonce nonce
      → IsNext w (check_signed m buffer text nonce hmac_hex g w).1
  unfolding check_signed
  check_signed-IsNext buffer text nonce hmac_hex g w size =
      let P = (λ (r : Bool × Window). IsNext w r.1) in
      let expected : List ℕ = elim (sst_hmac_sha256_ex m g.rep_mac_key 32 text) [
        | none ↦ buffer
        | some mac ↦ mac
      ] in
      let compared : List ℕ → Bool × Window = λ received.
        if bytes_eq expected received then (true, replay_window_add w nonce) else (false, w) in
      let decoded : Bool × Window = elim (decode_hex 32 hmac_hex) [
        | none ↦ (false, w)
        | some received ↦ compared received
      ] in
      let short : Bool × Window = if ltb (length text) 1024 then decoded else (false, w) in
      if_both P (replay_window_seen w nonce) (false, w)
        (if g.rep_key_valid then short else (false, w)) (inl refl)
        (if_both P g.rep_key_valid short (false, w)
          (if_both P (ltb (length text) 1024) decoded (false, w)
            (option_both P (decode_hex 32 hmac_hex) (false, w) compared (inl refl)
              (λ (received : List ℕ).
                if_both P (bytes_eq expected received) (true, replay_window_add w nonce) (false, w)
                  (inr (nonce, size, refl)) (inl refl)))
            (inl refl))
          (inl refl))

  check_headers-IsNext :
      (now : ℕ) (buffer path body : List ℕ) (a b c : Option (List ℕ)) (g : ReporterKey) (w : Window)
      → IsNext w (check_headers m now buffer path body a b c g w).1
  unfolding check_headers
  check_headers-IsNext now buffer path body (some ts) (some nonce_hex) (some hmac_hex) g w =
      let P = (λ (r : Bool × Window). IsNext w r.1) in
      let checked : List ℕ → Bool × Window =
        λ nonce. check_signed m buffer (signed_text ts nonce_hex path body) nonce hmac_hex g w in
      let decoded : Bool × Window = elim (decode_hex 12 nonce_hex) [
        | none ↦ (false, w)
        | some nonce ↦ checked nonce
      ] in
      let any : P decoded = elim (Option-cases (decode_hex 12 nonce_hex)) [
        | inl bad ↦ rw bad (inl refl)
        | inr (nonce, good) ↦ rw good (
            check_signed-IsNext buffer (signed_text ts nonce_hex path body) nonce hmac_hex g w
              (decode_hex-size 12 nonce_hex nonce good))
      ] in
      if_both P ((length nonce_hex == 24) && (length hmac_hex == 64))
        (if ltb 30 (skew now (strtoll10 ts)) then (false, w) else decoded) (false, w)
        (if_both P (ltb 30 (skew now (strtoll10 ts))) (false, w) decoded (inl refl) any) (inl refl)
  check_headers-IsNext now buffer path body none b c g w = inl refl
  check_headers-IsNext now buffer path body (some ts) none c g w = inl refl
  check_headers-IsNext now buffer path body (some ts) (some nonce_hex) none g w = inl refl

  verify-IsNext : (r : Request) (w : Window) → IsNext w (verify r w).1
  unfolding verify_signed_request
  verify-IsNext r w =
      check_headers-IsNext r.now r.buffer r.path (take r.body_len r.body)
        (extract_header r.buf (codes "X-SST-Timestamp:") 32)
        (extract_header r.buf (codes "X-SST-Nonce:") 25)
        (extract_header r.buf (codes "X-SST-HMAC:") 65) r.key w

  verify_all-IsAmong :
      (n : List ℕ) (cap k : ℕ) (rs : List Request) (w : Window)
      → k + length rs ≤ cap
      → IsAmong n cap k w
      → IsAmong n cap (k + length rs) (verify_all rs w)
  unfolding verify_all
  verify_all-IsAmong n cap k [] w room a = subst (λ t. IsAmong n cap t w) (omega arith) a
  verify_all-IsAmong n cap k (r ∷ rs) w room a =
      let w' : Window = (verify r w).1 in
      let next : IsAmong n cap (suc k) w' =
        next-IsAmong n cap k w w' (omega (arith, room)) (verify-IsNext r w) a in
      subst (λ t. IsAmong n cap t (verify_all rs w')) (omega arith)
        (verify_all-IsAmong n cap (suc k) rs w' (omega (arith, room)) next)

  module _
      (working : (key text : List ℕ)
        → (mac : List ℕ) × (sst_hmac_sha256_ex m key 32 text ≡ some mac)) where
    -- If the library computes codes, a request that has been accepted, and then fewer others than the
    -- window has rows, accepted or not, then its bytes are refused when they come again: at any
    -- time, for any path and body, with any key.
    pub verify_signed_request-replayed :
        (first again : Request) (others : List Request) (w : Window)
        → IsValid w
        → (verify first w).0 ≡ true
        → length others < w.cap
        → again.buf ≡ first.buf
        → (verify again (verify_all others (verify first w).1)).0 ≡ false
    verify_signed_request-replayed first again others w v h few same_buf =
        let (nonce, one, done) =
          verify_signed_request-IsSigned m working first.now first.buffer first.buf first.path
            first.body first.body_len first.key w h in
        let w₁ : Window = (verify first w).1 in
        let w₂ : Window = verify_all others w₁ in
        let size : IsNonce nonce = decode_hex-size 12 one.nonce_hex nonce one.decoded in
        let kept : w₁ ≡ replay_window_add w nonce = ap (λ (r : Bool × Window). r.1) done in
        let newest : IsAmong nonce w.cap 1 w₁ =
          subst (IsAmong nonce w.cap 1) (sym kept) (newest-IsAmong nonce w size v) in
        let seen : replay_window_seen w₂ nonce ≡ true =
          IsAmong-seen nonce w.cap (1 + length others) w₂ size
            (verify_all-IsAmong nonce w.cap 1 others w₁ (omega (arith, few)) newest) in
        elim (Bool-cases (verify again w₂).0) [
          | inr refused ↦ refused
          | inl accepted ↦
              let (nonce', two, _) =
                verify_signed_request-IsSigned m working again.now again.buffer again.buf again.path
                  again.body again.body_len again.key w₂ accepted in
              let same_header = ap (λ t. extract_header t (codes "X-SST-Nonce:") 25) same_buf in
              let same_hex : two.nonce_hex ≡ one.nonce_hex =
                some_eq (sym two.nonce_header ∙ same_header ∙ one.nonce_header) in
              let same : nonce' ≡ nonce =
                some_eq (sym two.decoded ∙ ap (decode_hex 12) same_hex ∙ one.decoded) in
              let fresh : replay_window_seen w₂ nonce ≡ false =
                ap (replay_window_seen w₂) (sym same) ∙ two.fresh in
              absurd (false≢true (sym fresh ∙ seen))
        ]
