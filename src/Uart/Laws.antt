-- ===== src/Uart/Laws.antt =====
-- What the receive loops deliver.
use lifi_auth.Common.{ℕ, zero, suc, ◌≤◌, ◌≡◌, refl, ap, ◌∙◌, arith, Bool, true, false}
use lifi_auth.Common.{some, List, [], ◌∷◌, ◌++◌, All, IsByte, length, take, drop, map, ◌==◌}
use lifi_auth.Common.{Bool-cases, inl, inr, ◌&&◌, subst, some_eq, if_some, All-append, ◌-◌, ==_refl}
use mathlib.Core.List.{map-append}
use lifi_auth.Common.{append_assoc, length-append}
use lifi_auth.Common.{take-drop}
use lifi_auth.Uart.{Poll, idle, ready, collect, uart_read_blocking_timeout, receive_pair, hunt_pair}
use lifi_auth.Uart.{receive_new_key_with_timeout}

-- A UART delivers bytes.
abbrev pub IsBytePoll : Poll → Type 0
IsBytePoll idle = Unit
IsBytePoll (ready b) = IsByte b

abbrev pub arriving : List ℕ → List Poll
arriving bs = map ready bs

-- Bytes that are there without a pause are read at once.
collect-arriving :
    (bs : List ℕ) (ps : List Poll) → collect (length bs) (arriving bs ++ ps) ≡ (bs, ps)
unfolding collect
collect-arriving [] ps = refl
collect-arriving (b ∷ bs) ps = rw (collect-arriving bs ps) refl

collect-bytes :
    (n : ℕ) (ps : List Poll)
    → All IsBytePoll ps
    → All IsByte (collect n ps).0 × All IsBytePoll (collect n ps).1
unfolding collect
collect-bytes zero ps h = (tt, h)
collect-bytes (suc n) [] h = (tt, tt)
collect-bytes (suc n) (idle ∷ ps) h = collect-bytes (suc n) ps h.1
collect-bytes (suc n) (ready b ∷ ps) h =
    let (bytes, rest) = collect-bytes n ps h.1 in ((h.0, bytes), rest)

All-split :
    {A : Type 0} (P : A → Type 0) (n : ℕ) (xs : List A)
    → All P xs
    → All P (take n xs) × All P (drop n xs)
All-split P zero xs h = (tt, h)
All-split P (suc n) [] h = (tt, tt)
All-split P (suc n) (x ∷ xs) h = let (front, back) = All-split P n xs h.1 in ((h.0, front), back)

-- What a timed read returns has the length that was asked for, and is bytes.
pub read-size :
    (deadline n : ℕ) (ps : List Poll) {bs : List ℕ}
    → (uart_read_blocking_timeout deadline n ps).0 ≡ some bs
    → length bs ≡ n
unfolding uart_read_blocking_timeout
read-size deadline n ps h = ground arith

pub read-bytes :
    (deadline n : ℕ) (ps : List Poll)
    → All IsBytePoll ps
    → ((bs : List ℕ) → (uart_read_blocking_timeout deadline n ps).0 ≡ some bs → All IsByte bs)
      × All IsBytePoll (uart_read_blocking_timeout deadline n ps).1
unfolding uart_read_blocking_timeout
read-bytes deadline n ps h =
    let (front, back) = All-split IsBytePoll deadline ps h in
    let (got, left) = collect-bytes n (take deadline ps) front in
    (
      (λ bs e.
          subst (All IsByte)
            (some_eq
              (if_some (length (collect n (take deadline ps)).0 == n)
                (some (collect n (take deadline ps)).0) bs e).1)
            got),
      All-append IsBytePoll (collect n (take deadline ps)).1 (drop deadline ps) left back,
    )

take-append_past :
    {A : Type 0} (n : ℕ) (xs ys : List A)
    → length xs ≤ n
    → take n (xs ++ ys) ≡ xs ++ take (n - length xs) ys
take-append_past n [] ys h = ap (λ k. take k ys) (omega arith)
take-append_past zero (x ∷ xs) ys h = absurd (omega arith)
take-append_past (suc n) (x ∷ xs) ys h =
    ap (λ t. x ∷ t)
      (take-append_past n xs ys (omega arith) ∙ ap (λ k. xs ++ take k ys) (omega arith))

drop-append_far :
    {A : Type 0} (n : ℕ) (xs ys : List A)
    → length xs ≤ n
    → drop n (xs ++ ys) ≡ drop (n - length xs) ys
drop-append_far n [] ys h = ap (λ k. drop k ys) (omega arith)
drop-append_far zero (x ∷ xs) ys h = absurd (omega arith)
drop-append_far (suc n) (x ∷ xs) ys h =
    drop-append_far n xs ys (omega arith) ∙ ap (λ k. drop k ys) (omega arith)

length-arriving : (bs : List ℕ) → length (arriving bs) ≡ length bs
length-arriving [] = refl
length-arriving (b ∷ bs) = ap suc (length-arriving bs)

-- Bytes that arrive without a pause, no more of them than polls before the deadline, are read
-- whole, and what comes behind them stays.
pub read-arriving :
    (deadline : ℕ) (bs : List ℕ) (ps : List Poll)
    → length bs ≤ deadline
    → uart_read_blocking_timeout deadline (length bs) (arriving bs ++ ps) ≡ (some bs, ps)
unfolding uart_read_blocking_timeout
read-arriving deadline bs ps h =
    let k : ℕ = deadline - length (arriving bs) in
    let fits : length (arriving bs) ≤ deadline = omega (arith, length-arriving bs) in
    rw
      (
        take-append_past deadline (arriving bs) ps fits,
        drop-append_far deadline (arriving bs) ps fits,
        collect-arriving bs (take k ps),
      )
      (rw (==_refl (length bs), take-drop k ps) refl)

receive_pair-size :
    (ps : List Poll) {id key : List ℕ}
    → All IsBytePoll ps
    → (receive_pair ps).0 ≡ some (id, key)
    → (length id ≡ 8) × (length key ≡ 16) × All IsByte id × All IsByte key
unfolding receive_pair
receive_pair-size ps {id} {key} h e =
    let first = collect 8 ps in
    let second = collect 16 first.1 in
    let (ids, rest) = collect-bytes 8 ps h in
    let (keys, _) = collect-bytes 16 first.1 rest in
    let (sizes, same) =
      if_some ((length first.0 == 8) && (length second.0 == 16)) (some (first.0, second.0))
        (id, key) e in
    let id_same : first.0 ≡ id = cc in
    let key_same : second.0 ≡ key = cc in
    (
      ground (arith, sizes, ap length id_same),
      ground (arith, sizes, ap length key_same),
      subst (All IsByte) id_same ids,
      subst (All IsByte) key_same keys,
    )

-- A key pair that is received has an ID of 8 bytes and a key of 16.
hunt_pair-size :
    (second : Bool) (ps : List Poll) {id key : List ℕ}
    → All IsBytePoll ps
    → (hunt_pair second ps).0 ≡ some (id, key)
    → (length id ≡ 8) × (length key ≡ 16) × All IsByte id × All IsByte key
unfolding hunt_pair
hunt_pair-size second [] h e = cc
hunt_pair-size false (idle ∷ ps) h e = hunt_pair-size false ps h.1 e
hunt_pair-size true (idle ∷ ps) h e = hunt_pair-size true ps h.1 e
hunt_pair-size false (ready b ∷ ps) h e = hunt_pair-size (b == 0xAB) ps h.1 e
hunt_pair-size true (ready b ∷ ps) {id} {key} h e = elim (Bool-cases (b == 0xCD)) [
  | inl p ↦ receive_pair-size ps h.1 (rw p at e)
  | inr p ↦ hunt_pair-size false ps h.1 (rw p at e)
]

pub receive_new_key-size :
    (deadline : ℕ) (ps : List Poll) {id key : List ℕ}
    → All IsBytePoll ps
    → (receive_new_key_with_timeout deadline ps).0 ≡ some (id, key)
    → (length id ≡ 8) × (length key ≡ 16) × All IsByte id × All IsByte key
unfolding receive_new_key_with_timeout
receive_new_key-size deadline ps h e =
    hunt_pair-size false (take deadline ps) (All-split IsBytePoll deadline ps h).0 e

-- An ID of 8 bytes and a key of 16 that arrive without a pause behind the bytes 0xAB 0xCD, with
-- at least 26 polls before the deadline, are received, and what comes behind them stays.
pub receive_new_key-arriving :
    (deadline : ℕ) (id key : List ℕ) (ps : List Poll)
    → length id ≡ 8
    → length key ≡ 16
    → 26 ≤ deadline
    → receive_new_key_with_timeout deadline (arriving (0xAB ∷ 0xCD ∷ (id ++ key)) ++ ps)
      ≡ (some (id, key), ps)
unfolding receive_new_key_with_timeout hunt_pair receive_pair
receive_new_key-arriving deadline id key ps a b h =
    let bs : List ℕ = 0xAB ∷ 0xCD ∷ (id ++ key) in
    let size : length (arriving bs) ≡ 26 =
      omega (arith, length-arriving bs, length-append id key) in
    let more : List Poll = take (deadline - length (arriving bs)) ps in
    let split : arriving (id ++ key) ++ more ≡ arriving id ++ (arriving key ++ more) =
      ap (λ t. t ++ more) (map-append ready id key)
      ∙ append_assoc (arriving id) (arriving key) more in
    let ids : collect 8 (arriving (id ++ key) ++ more) ≡ (id, arriving key ++ more) =
      rw (split, ← a) (collect-arriving id (arriving key ++ more)) in
    let keys : collect 16 (arriving key ++ more) ≡ (key, more) =
      rw (← b) (collect-arriving key more) in
    rw
      (
        take-append_past deadline (arriving bs) ps (omega (arith, size)),
        drop-append_far deadline (arriving bs) ps (omega (arith, size)),
        ids,
        keys,
        a,
        b,
      )
      (rw (take-drop (deadline - length (arriving bs)) ps) refl)
