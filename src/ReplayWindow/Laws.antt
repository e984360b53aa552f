-- ===== src/ReplayWindow/Laws.antt =====
-- A replay window remembers exactly the nonces that were added last, `cap` of them.
use lifi_auth.Common.{ℕ, zero, suc, ◌≤◌, ◌<◌, ◌≡◌, refl, subst, sym, ap, ◌∙◌, arith}
use lifi_auth.Common.{List, [], ◌∷◌, ◌++◌, All, length, take, drop, zeros, replicate}
use lifi_auth.Common.{take_all, append-nil, append_assoc}
use lifi_auth.Common.{drop_all}
use lifi_auth.Common.{length-replicate, ap₂}
use mathlib.Core.List.{reverse, reverse-append}
use lifi_auth.ReplayWindow.{Window, zero_rows, replay_window_init, replay_window_seen}
use lifi_auth.ReplayWindow.{replay_window_add}
use lifi_auth.ReplayWindow.Recent.{IsNonce, nonce_bytes, IsValid, contains, oldest_first, recent}
use lifi_auth.ReplayWindow.Seen.{seen-recent}
use lifi_auth.ReplayWindow.Push.{add-IsValid, recent-add}

-- Nonces are added one after the other.
abbrev pub add_all : Window → List (List ℕ) → Window
add_all w [] = w
add_all w (n ∷ ns) = add_all (replay_window_add w n) ns

take-append-take :
    {A : Type 0} (n m : ℕ) (xs ys : List A) → n ≤ m → take n (xs ++ take m ys) ≡ take n (xs ++ ys)
take-append-take zero m xs ys h = refl
take-append-take (suc n) zero xs ys h = absurd (omega arith)
take-append-take (suc n) (suc m) [] [] h = refl
take-append-take (suc n) (suc m) [] (y ∷ ys) h =
    ap (λ t. y ∷ t) (take-append-take n m [] ys (omega arith))
take-append-take (suc n) (suc m) (x ∷ xs) ys h =
    ap (λ t. x ∷ t) (take-append-take n (suc m) xs ys (omega arith))

add_all-recent :
    (w : Window) (ns : List (List ℕ))
    → IsValid w
    → All IsNonce ns
    → take w.cap (recent w) ≡ recent w
    → IsValid (add_all w ns) × (recent (add_all w ns) ≡ take w.cap (reverse ns ++ recent w))
unfolding replay_window_add
add_all-recent w [] v h k = (v, sym k)
add_all-recent w (n ∷ ns) v h k =
    let w' = replay_window_add w n in
    let pushed = recent-add w n v h.0 in
    let full : take w.cap (recent w') ≡ recent w' =
      rw pushed (take-append-take w.cap w.cap [] (n ∷ recent w) (omega arith)) in
    let (valid, rest) = add_all-recent w' ns (add-IsValid w n v h.0) h.1 full in
    let behind : take w.cap (reverse ns ++ recent w') ≡ take w.cap (reverse ns ++ (n ∷ recent w)) =
      rw pushed (take-append-take w.cap w.cap (reverse ns) (n ∷ recent w) (omega arith)) in
    let turned : reverse ns ++ (n ∷ recent w) ≡ reverse (n ∷ ns) ++ recent w =
      sym (append_assoc (reverse ns) (n ∷ []) (recent w))
      ∙ ap (λ t. t ++ recent w) (sym (reverse-append (n ∷ []) ns)) in
    (valid, rest ∙ behind ∙ ap (take w.cap) turned)

-- A fresh window of `cap` rows holds `cap` all-zero nonces.
zero_rows_fresh :
    (k : ℕ) (rows : List (List ℕ))
    → All IsNonce rows
    → k ≤ length rows
    → All IsNonce (zero_rows k nonce_bytes rows)
      × (length (zero_rows k nonce_bytes rows) ≡ length rows)
      × (take k (zero_rows k nonce_bytes rows) ≡ replicate k (zeros nonce_bytes))
unfolding zero_rows
zero_rows_fresh zero rows h l = (h, refl, refl)
zero_rows_fresh (suc k) [] h l = absurd (omega arith)
zero_rows_fresh (suc k) (r ∷ rs) h l =
    let (all, len, front) = zero_rows_fresh k rs h.1 (omega arith) in
    let row : zeros nonce_bytes ++ drop nonce_bytes r ≡ zeros nonce_bytes =
      rw (drop_all nonce_bytes r (omega (arith, h.0))) refl in
    ((subst IsNonce (sym row) refl, all), ap suc len, ap₂ ◌∷◌ row front)

reverse-replicate : {A : Type 0} (k : ℕ) (a : A) → reverse (replicate k a) ≡ replicate k a
reverse-replicate {A} zero a = refl
reverse-replicate {A} (suc k) a =
    reverse-append (a ∷ []) (replicate k a) ∙ rw (reverse-replicate k a) (snoc k)
  where
    snoc : (k : ℕ) → replicate k a ++ (a ∷ []) ≡ a ∷ replicate k a
    snoc zero = refl
    snoc (suc k) = ap (λ t. a ∷ t) (snoc k)

pub init-IsValid :
    (old : List (List ℕ)) (cap : ℕ)
    → All IsNonce old
    → 0 < cap
    → cap ≤ length old
    → IsValid (replay_window_init old nonce_bytes cap)
      × (recent (replay_window_init old nonce_bytes cap) ≡ replicate cap (zeros nonce_bytes))
unfolding replay_window_init recent oldest_first
init-IsValid old cap h pos fits =
    let (all, len, front) = zero_rows_fresh cap old h fits in
    (
      record { size = refl; fits = omega (arith, len); inside = pos; rows = all },
      rw front (
          ap reverse (append-nil (replicate cap (zeros nonce_bytes)))
          ∙ reverse-replicate cap (zeros nonce_bytes)),
    )

-- A window of `cap` rows over a buffer of 12-byte rows, after any nonces have been added to it:
-- the test answers true exactly for the nonces among the `cap` entries of the history added
-- last, where the history begins with `cap` all-zero nonces.
pub seen-add_all :
    (old : List (List ℕ)) (cap : ℕ) (ns : List (List ℕ)) (n : List ℕ)
    → All IsNonce old
    → 0 < cap
    → cap ≤ length old
    → All IsNonce ns
    → IsNonce n
    → replay_window_seen (add_all (replay_window_init old nonce_bytes cap) ns) n
      ≡ contains (take cap (reverse ns ++ replicate cap (zeros nonce_bytes))) n
unfolding replay_window_init
seen-add_all old cap ns n h pos fits hs l =
    let w = replay_window_init old nonce_bytes cap in
    let (valid, zeroed) = init-IsValid old cap h pos fits in
    let full : take cap (recent w) ≡ recent w =
      rw zeroed (take_all cap (replicate cap (zeros nonce_bytes)) (length-replicate cap _)) in
    let (valid', history) = add_all-recent w ns valid hs full in
    seen-recent (add_all w ns) n valid' l ∙ ap (λ t. contains t n) (history ∙ rw zeroed refl)
