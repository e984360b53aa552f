-- ===== src/ReplayWindow/Seen.antt =====
-- The test looks through the nonces that were added last.
use lifi_auth.Common.{ℕ, zero, suc, ◌≡◌, refl, sym, ap, ◌∙◌, arith}
use lifi_auth.Common.{◌||◌, List, [], ◌∷◌, ◌++◌, All, take, drop}
use lifi_auth.Common.{bytes_eq, take_all, Bool, true, false}
use mathlib.Core.List.{reverse, reverse-append}
use lifi_auth.ReplayWindow.{Window, seen_rows, replay_window_seen}
use lifi_auth.ReplayWindow.Recent.{IsNonce, nonce_bytes, IsValid, contains, recent}

or_assoc : (a b c : Bool) → ((a || b) || c) ≡ (a || (b || c))
or_assoc true b c = refl
or_assoc false b c = refl

or_comm : (a b : Bool) → (a || b) ≡ (b || a)
or_comm true true = refl
or_comm true false = refl
or_comm false true = refl
or_comm false false = refl

contains-append :
    (xs ys : List (List ℕ)) (n : List ℕ) → contains (xs ++ ys) n ≡ (contains xs n || contains ys n)
unfolding contains
contains-append [] ys n = refl
contains-append (x ∷ xs) ys n =
    rw (contains-append xs ys n) (sym (or_assoc (bytes_eq x n) (contains xs n) (contains ys n)))

contains-reverse : (xs : List (List ℕ)) (n : List ℕ) → contains (reverse xs) n ≡ contains xs n
unfolding contains
contains-reverse [] n = refl
contains-reverse (x ∷ xs) n =
    ap (λ t. contains t n) (reverse-append (x ∷ []) xs)
    ∙ contains-append (reverse xs) (x ∷ []) n
    ∙ rw (contains-reverse xs n) (ground arith)

-- `memcmp` over whole rows.
seen_rows-contains :
    (k : ℕ) (rows : List (List ℕ)) (n : List ℕ)
    → All IsNonce rows
    → IsNonce n
    → seen_rows k rows nonce_bytes n ≡ contains (take k rows) n
unfolding seen_rows contains
seen_rows-contains zero rows n h l = refl
seen_rows-contains (suc k) [] n h l = refl
seen_rows-contains (suc k) (r ∷ rs) n h l =
    rw (take_all nonce_bytes r h.0, take_all nonce_bytes n l, seen_rows-contains k rs n h.1 l) refl

take-append-drop : {A : Type 0} (n : ℕ) (xs : List A) → take n xs ++ drop n xs ≡ xs
take-append-drop zero xs = refl
take-append-drop (suc n) [] = refl
take-append-drop (suc n) (x ∷ xs) = ap (λ t. x ∷ t) (take-append-drop n xs)

-- The test looks at the remembered nonces and at nothing else.
pub seen-recent :
    (w : Window) (n : List ℕ)
    → IsValid w
    → IsNonce n
    → replay_window_seen w n ≡ contains (recent w) n
unfolding replay_window_seen recent
seen-recent w n v l =
    let rows = take w.cap w.buf in
    let front = take w.idx rows in
    let back = drop w.idx rows in
    rw v.size (
      seen_rows-contains w.cap w.buf n v.rows l
      ∙ ap (λ t. contains t n) (sym (take-append-drop w.idx rows))
      ∙ contains-append front back n
      ∙ or_comm (contains front n) (contains back n)
      ∙ sym (contains-append back front n)
      ∙ sym (contains-reverse (back ++ front) n))
