-- ===== src/Nonce/Laws.antt =====
-- No nonce comes twice from one salt before a reboot is asked for.
use lifi_auth.Common.{
  ℕ, zero, suc, ◌+◌, ◌^◌, ◌≤◌, ◌<◌, ◌≡◌, ◌≢◌, refl, subst, ap, sym, ◌∙◌, arith, u32,
}
use lifi_auth.Common.{◌||◌, List, [], ◌∷◌, ◌++◌, All, ◌==◌, get_or, ltb, ◌&&◌}
use lifi_auth.Nonce.{NonceState, store_be32, pico_nonce_generate}

-- `n` nonces in a row, and the state behind them.
pub generate_all : ℕ → NonceState → List (List ℕ) × NonceState
generate_all zero s = ([], s)
generate_all (suc n) s =
    let (x, s') = pico_nonce_generate s in let (xs, s'') = generate_all n s' in (x ∷ xs, s'')

-- No two members of a list are equal.
abbrev pub IsDistinct : List (List ℕ) → Type 0
IsDistinct [] = Unit
IsDistinct (x ∷ xs) = All (λ y. x ≢ y) xs × IsDistinct xs

store_be32-injective : (v w : ℕ) → v < 2 ^ 32 → w < 2 ^ 32 → store_be32 v ≡ store_be32 w → v ≡ w
unfolding store_be32
store_be32-injective v w p q e =
    let h0 = ap (λ l. get_or l 0 0) e in
    let h1 = ap (λ l. get_or l 1 0) e in
    let h2 = ap (λ l. get_or l 2 0) e in let h3 = ap (λ l. get_or l 3 0) e in omega arith

append-injective : (xs ys zs : List ℕ) → xs ++ ys ≡ xs ++ zs → ys ≡ zs
append-injective [] ys zs e = e
append-injective (x ∷ xs) ys zs e = append-injective xs ys zs (cc)

-- `n` consecutive counter values behind one salt.
pub numbered : List ℕ → ℕ → ℕ → List (List ℕ)
numbered salt c zero = []
numbered salt c (suc n) = (salt ++ store_be32 c) ∷ numbered salt (c + 1) n

numbered-fresh :
    (salt : List ℕ) (c d n : ℕ)
    → c < d
    → d + n ≤ 2 ^ 32
    → All (λ y. salt ++ store_be32 c ≢ y) (numbered salt d n)
unfolding numbered
numbered-fresh salt c d zero h k = tt
numbered-fresh salt c d (suc n) h k = (
  (λ e. absurd (
      let same =
        store_be32-injective c d (omega arith) (omega arith)
          (append-injective salt (store_be32 c) (store_be32 d) e) in
      omega arith)),
  numbered-fresh salt c (d + 1) n (omega arith) (omega arith),
)

numbered-IsDistinct : (salt : List ℕ) (c n : ℕ) → c + n ≤ 2 ^ 32 → IsDistinct (numbered salt c n)
unfolding numbered
numbered-IsDistinct salt c zero h = tt
numbered-IsDistinct salt c (suc n) h = (
  numbered-fresh salt c (c + 1) n (omega arith) (omega arith),
  numbered-IsDistinct salt (c + 1) n (omega arith),
)

generate_all-numbered :
    (n : ℕ) (s : NonceState)
    → s.msg_counter + n ≤ 2 ^ 32
    → s.msg_counter < 2 ^ 32
    → ((generate_all n s).0 ≡ numbered s.boot_salt s.msg_counter n)
      × ((generate_all n s).1.rebooting
          ≡ (s.rebooting || (ltb 0 n && (s.msg_counter + n == 2 ^ 32))))
unfolding generate_all numbered pico_nonce_generate
generate_all-numbered zero s h k = (refl, ground arith)
generate_all-numbered (suc zero) s h k = (refl, ground arith)
generate_all-numbered (suc (suc n)) s h k =
    let s' : NonceState = (pico_nonce_generate s).1 in
    let (numbers, flag) = generate_all-numbered (suc n) s' (omega arith) (omega arith) in
    let next : u32 (s.msg_counter + 1) ≡ s.msg_counter + 1 = omega arith in
    (
      ap (λ t. (s.boot_salt ++ store_be32 s.msg_counter) ∷ t)
          (numbers ∙ ap (λ k. numbered s.boot_salt k (suc n)) next),
      flag ∙ ground arith,
    )

-- From a counter below 2 ^ 32 that does not pass 2 ^ 32, `n` nonces in a row are pairwise
-- different, they are the salt with the consecutive counter values, and a reboot has been asked
-- for by then only if one was asked for before or the last nonce used the counter's last value.
pub pico_nonce_generate-IsDistinct :
    (n : ℕ) (s : NonceState)
    → s.msg_counter + n ≤ 2 ^ 32
    → s.msg_counter < 2 ^ 32
    → IsDistinct (generate_all n s).0
      × ((generate_all n s).0 ≡ numbered s.boot_salt s.msg_counter n)
      × ((generate_all n s).1.rebooting
          ≡ (s.rebooting || (ltb 0 n && (s.msg_counter + n == 2 ^ 32))))
pico_nonce_generate-IsDistinct n s h k =
    let (numbers, flag) = generate_all-numbered n s h k in
    (
      subst IsDistinct (sym numbers) (numbered-IsDistinct s.boot_salt s.msg_counter n h),
      numbers,
      flag,
    )
