-- ===== src/ReplayWindow/Push.antt =====
-- Adding a nonce keeps the window valid, and puts it before the others.
use lifi_auth.Common.{ℕ, zero, suc, ◌+◌, ◌%◌, ◌<◌, ◌≡◌, refl, sym, ap, ◌∙◌, arith}
use lifi_auth.Common.{List, [], ◌∷◌, ◌++◌, All, length, get_or, set, take, drop}
use lifi_auth.Common.{take_all, append-nil, append_assoc, length-set}
use lifi_auth.Common.{split_at, set-append_mid, take-set, drop_all, take-append}
use lifi_auth.Common.{drop-append, length-append, length-take}
use mathlib.Core.List.{reverse, reverse-append}
use native.Mathlib.Nat.{mod-eq_of_lt, mod-lt}
use lifi_auth.ReplayWindow.{Window}
use lifi_auth.ReplayWindow.{replay_window_add}
use lifi_auth.ReplayWindow.Recent.{IsNonce, nonce_bytes, IsValid, oldest_first, recent}

All-set :
    {A : Type 0} (P : A → Type 0) (xs : List A) (i : ℕ) (x : A)
    → All P xs
    → P x
    → All P (set xs i x)
All-set P [] i x h p = tt
All-set P (y ∷ xs) zero x h p = (p, h.1)
All-set P (y ∷ xs) (suc i) x h p = (h.0, All-set P xs i x h.1 p)

All-get_or :
    (rows : List (List ℕ)) (i : ℕ) → All IsNonce rows → i < length rows → IsNonce (get_or rows i [])
All-get_or [] i h l = absurd (omega arith)
All-get_or (r ∷ rs) zero h l = h.0
All-get_or (r ∷ rs) (suc i) h l = All-get_or rs i h.1 (omega arith)

-- A row is overwritten whole.
new_row :
    (w : Window) (n : List ℕ)
    → IsValid w
    → IsNonce n
    → take w.nonce_size n ++ drop w.nonce_size (get_or w.buf w.idx []) ≡ n
new_row w n v l =
    let old : IsNonce (get_or w.buf w.idx []) =
      All-get_or w.buf w.idx v.rows (omega (arith, v.inside, v.fits)) in
    rw
      (
        v.size,
        take_all nonce_bytes n l,
        drop_all nonce_bytes (get_or w.buf w.idx []) (omega (arith, old)),
      )
      (append-nil n)

pub add-IsValid :
    (w : Window) (n : List ℕ) → IsValid w → IsNonce n → IsValid (replay_window_add w n)
unfolding replay_window_add
add-IsValid w n v l = record {
  size = v.size;
  fits = omega (
    arith,
    length-set w.buf w.idx (take w.nonce_size n ++ drop w.nonce_size (get_or w.buf w.idx [])),
    v.fits,
  );
  inside = mod-lt (w.idx + 1) (omega (arith, v.inside));
  rows = All-set IsNonce w.buf w.idx _ v.rows (rw (new_row w n v l) l);
}

length-reverse : {A : Type 0} (xs : List A) → length (reverse xs) ≡ length xs
length-reverse [] = refl
length-reverse (x ∷ xs) = omega (
  arith,
  ap length (reverse-append (x ∷ []) xs),
  length-append (reverse xs) (x ∷ []),
  length-reverse xs,
)

-- The row behind the newest one is the next to go, also where the index wraps.
rotated :
    {A : Type 0} (i cap : ℕ) (p q : List A) (x : A)
    → length p ≡ i
    → i + 1 + length q ≡ cap
    → drop ((i + 1) % cap) (p ++ (x ∷ q)) ++ take ((i + 1) % cap) (p ++ (x ∷ q))
      ≡ q ++ (p ++ (x ∷ []))
rotated i cap p [] x h e =
    let wraps : (i + 1) % cap ≡ 0 = grind arith in rw wraps (append-nil (p ++ (x ∷ [])))
rotated i cap p (y ∷ q) x h e =
    let stays : (i + 1) % cap ≡ i + 1 = mod-eq_of_lt (omega arith) in
    let front : length (p ++ (x ∷ [])) ≡ i + 1 = omega (arith, length-append p (x ∷ [])) in
    let joined : p ++ (x ∷ (y ∷ q)) ≡ (p ++ (x ∷ [])) ++ (y ∷ q) =
      sym (append_assoc p (x ∷ []) (y ∷ q)) in
    rw
      (
        stays,
        joined,
        drop-append (i + 1) (p ++ (x ∷ [])) (y ∷ q) front,
        take-append (i + 1) (p ++ (x ∷ [])) (y ∷ q) front,
      )
      refl

-- The lists before and behind the row that is overwritten.
recent-add_at :
    (w : Window) (n : List ℕ) (p : List (List ℕ)) (r : List ℕ) (q : List (List ℕ))
    → IsValid w
    → IsNonce n
    → take w.cap w.buf ≡ p ++ (r ∷ q)
    → length p ≡ w.idx
    → w.idx + 1 + length q ≡ w.cap
    → (recent w ≡ reverse (q ++ p) ++ (r ∷ []))
      × (recent (replay_window_add w n) ≡ n ∷ reverse (q ++ p))
unfolding recent oldest_first replay_window_add
recent-add_at w n p r q v l e at total = (before, after)
  where
    before :
        reverse (drop w.idx (take w.cap w.buf) ++ take w.idx (take w.cap w.buf))
        ≡ reverse (q ++ p) ++ (r ∷ [])
    before =
        rw (e, drop-append w.idx p (r ∷ q) at, take-append w.idx p (r ∷ q) at)
          (reverse-append (r ∷ []) (q ++ p))

    row : List ℕ
    row = take w.nonce_size n ++ drop w.nonce_size (get_or w.buf w.idx [])

    written : take w.cap (set w.buf w.idx row) ≡ p ++ (n ∷ q)
    written =
        take-set w.cap w.idx w.buf row ∙ rw (new_row w n v l, e) (set-append_mid w.idx p q r n at)

    turned : reverse (q ++ (p ++ (n ∷ []))) ≡ n ∷ reverse (q ++ p)
    turned = ap reverse (sym (append_assoc q p (n ∷ []))) ∙ reverse-append (q ++ p) (n ∷ [])

    after :
        reverse (
          drop ((w.idx + 1) % w.cap) (take w.cap (set w.buf w.idx row))
          ++ take ((w.idx + 1) % w.cap) (take w.cap (set w.buf w.idx row)))
        ≡ n ∷ reverse (q ++ p)
    after = rw written (ap reverse (rotated w.idx w.cap p q n at total) ∙ turned)

-- Adding a nonce puts it in front of the remembered ones and forgets the oldest.
pub recent-add :
    (w : Window) (n : List ℕ)
    → IsValid w
    → IsNonce n
    → recent (replay_window_add w n) ≡ take w.cap (n ∷ recent w)
recent-add w n v l =
    let rows = take w.cap w.buf in
    let size : length rows ≡ w.cap = omega (arith, length-take w.cap w.buf, v.fits) in
    go (split_at w.idx rows (omega (arith, size, v.inside))) size
  where
    forget :
        (cap : ℕ) (xs : List (List ℕ)) (r : List ℕ)
        → suc (length xs) ≡ cap
        → n ∷ xs ≡ take cap (n ∷ (xs ++ (r ∷ [])))
    forget zero xs r h = absurd (omega arith)
    forget (suc k) xs r h = ap (λ t. n ∷ t) (sym (take-append k xs (r ∷ []) (omega arith)))

    go :
        ((p : List (List ℕ)) × (r : List ℕ) × (q : List (List ℕ)) × (take w.cap w.buf
            ≡ p ++ (r ∷ q))
          × (length p ≡ w.idx))
        → length (take w.cap w.buf) ≡ w.cap
        → recent (replay_window_add w n) ≡ take w.cap (n ∷ recent w)
    go (p, r, q, e, at) size =
        let total : w.idx + 1 + length q ≡ w.cap =
          omega (arith, size, ap length e, length-append p (r ∷ q), at) in
        let (before, after) = recent-add_at w n p r q v l e at total in
        after
        ∙ rw before (
            forget w.cap (reverse (q ++ p)) r
              (omega (arith, length-reverse (q ++ p), length-append q p, total, at)))
