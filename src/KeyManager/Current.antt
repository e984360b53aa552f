-- ===== src/KeyManager/Current.antt =====
-- The key in use and the list of keys.
use native.Mathlib.Nat.{mod-lt}
use lifi_auth.Common.{u64}
use lifi_auth.Common.{ℕ, zero, suc, ◌+◌, ◌%◌, ◌≡◌, refl, ap, arith, ◌⊎◌, inl, inr}
use lifi_auth.Common.{
  Bool, true, false, ◌&&◌, Option, some, none, List, [], ◌∷◌, ◌++◌, length, get_or, ltb, ◌<◌,
}
use lifi_auth.Common.{if_both, list_both, some_eq, subst, Bool-cases, Option-cases}
use lifi_auth.Host.{WriteResult, SessionKey, Sst}
use lifi_auth.Host.Port.{write_all}
use lifi_auth.KeyManager.{
  KeyManager, Shortcut, write_parts, send_session_key, key_parts, next_key, fetch_keys,
}
use lifi_auth.KeyManager.{
  rotate, provision, force, clear, quit, other, reconnect, use_keys, no_keys,
}
use lifi_auth.Host.Texts.{keys_of}
use lifi_auth.KeyManager.{handle_shortcut, press_all, start}

-- Either there are no keys, and none is valid, or a valid key of the list is in use.
abbrev pub IsKeyOf : List SessionKey → SessionKey → Bool → Type 0
IsKeyOf keys k valid =
    ((keys ≡ []) × (valid ≡ false))
    ⊎ ((p : List SessionKey) × (q : List SessionKey) × (keys ≡ p ++ (k ∷ q)) × (valid ≡ true))

abbrev pub IsCurrent : KeyManager → Type 0
IsCurrent p = IsKeyOf p.key_list p.s_key p.key_valid

get_or-split :
    (i : ℕ) (xs : List SessionKey) (k : SessionKey)
    → i < length xs
    → (p : List SessionKey) × (q : List SessionKey) × (xs ≡ p ++ (get_or xs i k ∷ q))
get_or-split i [] k h = absurd (omega arith)
get_or-split zero (x ∷ xs) k h = ([], xs, refl)
get_or-split (suc i) (x ∷ xs) k h =
    let (p, q, e) = get_or-split i xs k (omega arith) in (x ∷ p, q, ap (λ t. x ∷ t) e)

write_parts-IsCurrent :
    (parts : List (List ℕ)) (p : KeyManager) → IsCurrent p → IsCurrent (write_parts parts p).1
unfolding write_parts
write_parts-IsCurrent [] p h = h
write_parts-IsCurrent (part ∷ parts) p h =
    let written = write_all p.writes part in
    let p' = record p { sent = p.sent ++ written.1; writes = written.2 } in
    if_both (λ (r : Bool × KeyManager). IsCurrent r.1) written.0 (write_parts parts p') (false, p')
      (write_parts-IsCurrent parts p' h) h

send_session_key-IsCurrent : (p : KeyManager) → IsCurrent p → IsCurrent (send_session_key p).1
unfolding send_session_key
send_session_key-IsCurrent p h = write_parts-IsCurrent (key_parts p.s_key) p h

-- With more than one key, there is one.
valid_of :
    (keys : List SessionKey) (k : SessionKey) (valid : Bool)
    → 1 < length keys
    → IsKeyOf keys k valid
    → valid ≡ true
valid_of keys k valid h (inl (empty, invalid)) =
    let more : 1 < length {A = SessionKey} [] = subst (λ t. 1 < length t) empty h in
    absurd (omega (arith, more))
valid_of keys k valid h (inr (p, q, split, ok)) = ok

next_key-IsCurrent : (p : KeyManager) → IsCurrent p → IsCurrent (next_key p)
unfolding next_key
next_key-IsCurrent p h =
    let n : ℕ = length p.key_list in
    let idx : ℕ = (p.current_key_idx + 1) % n in
    elim (Bool-cases (ltb 1 n)) [
      | inl more ↦
          let many : 1 < n = ground (arith, more) in
          let (front, back, split) =
            get_or-split idx p.key_list p.s_key
              (mod-lt (p.current_key_idx + 1) (omega (arith, many))) in
          rw more (inr (front, back, split, valid_of p.key_list p.s_key p.key_valid many h))
      | inr few ↦ rw few h
    ]

use_keys-IsCurrent :
    (k : SessionKey) (ks : List SessionKey) (p : KeyManager) → IsCurrent (use_keys k ks p)
unfolding use_keys
use_keys-IsCurrent k ks p =
    let p' = record p { key_list = k ∷ ks; s_key = k; key_valid = true } in
    let h : IsCurrent p' = inr ([], ks, refl, refl) in
    if_both IsCurrent p.port_open (send_session_key p').1 p' (send_session_key-IsCurrent p' h) h

fetch_keys-IsCurrent : (sst : Sst) (p : KeyManager) → IsCurrent p → IsCurrent (fetch_keys sst p)
unfolding fetch_keys
fetch_keys-IsCurrent sst p h =
    let p₁ = record p { calls = p.calls + 1 } in
    let p₂ = record p₁ { keys_consumed = u64 (p.keys_consumed + 1) } in
    list_both IsCurrent (keys_of (sst.get_session_key p.calls)) p₁
      (λ (k : SessionKey) (ks : List SessionKey). use_keys k ks p₂) h
      (λ (k : SessionKey) (ks : List SessionKey). use_keys-IsCurrent k ks p₂)

start-IsCurrent :
    (sst : Sst) (opened : Bool) (writes : List WriteResult) → IsCurrent (start sst opened writes)
unfolding start
start-IsCurrent sst opened writes =
    list_both IsCurrent (keys_of (sst.get_session_key 0)) (no_keys opened writes)
      (λ (k : SessionKey) (ks : List SessionKey). use_keys k ks (no_keys opened writes))
      (inl (refl, refl))
      (λ (k : SessionKey) (ks : List SessionKey). use_keys-IsCurrent k ks (no_keys opened writes))

handle_shortcut-IsCurrent :
    (sst : Sst) (key : Shortcut) (p p' : KeyManager)
    → IsCurrent p
    → handle_shortcut sst key p ≡ some p'
    → IsCurrent p'
unfolding handle_shortcut
handle_shortcut-IsCurrent sst rotate p p' h e = subst IsCurrent (some_eq e) (next_key-IsCurrent p h)
handle_shortcut-IsCurrent sst provision p p' h e = subst IsCurrent (some_eq e) (
    if_both IsCurrent (p.port_open && p.key_valid) (send_session_key p).1 p
      (send_session_key-IsCurrent p h) h)
handle_shortcut-IsCurrent sst force p p' h e =
    subst IsCurrent (some_eq e) (fetch_keys-IsCurrent sst p h)
handle_shortcut-IsCurrent sst clear p p' h e = subst IsCurrent (some_eq e) h
handle_shortcut-IsCurrent sst (reconnect opened) p p' h e = subst IsCurrent (some_eq e) h
handle_shortcut-IsCurrent sst quit p p' h e = cc
handle_shortcut-IsCurrent sst other p p' h e = subst IsCurrent (some_eq e) h

-- `press_all` behind a key.
abbrev then_press : Sst → List Shortcut → Option KeyManager → Option KeyManager
then_press sst keys o = elim o [ none ↦ none | some p ↦ press_all sst keys p ]

press_all-steps :
    (sst : Sst) (keys : List Shortcut) (p p' : KeyManager)
    → IsCurrent p
    → press_all sst keys p ≡ some p'
    → IsCurrent p'
unfolding press_all
press_all-steps sst [] p p' h e = subst IsCurrent (some_eq e) h
press_all-steps sst (key ∷ keys) p p' h e = elim (Option-cases (handle_shortcut sst key p)) [
  | inl ended ↦
      let none_left : none ≡ some p' = subst (λ o. then_press sst keys o ≡ some p') ended e in cc
  | inr (p₁, pressed) ↦
      press_all-steps sst keys p₁ p' (handle_shortcut-IsCurrent sst key p p₁ h pressed)
        (subst (λ o. then_press sst keys o ≡ some p') pressed e)
]

-- From the start of the program, whatever SST answers and `write` returns, and whatever keys are
-- pressed: as long as the program has not ended, either its list of keys is empty and no key is
-- valid, or the key in use is valid and stands in the list that was fetched last.
pub press_all-IsCurrent :
    (sst : Sst) (opened : Bool) (writes : List WriteResult) (keys : List Shortcut) (p : KeyManager)
    → press_all sst keys (start sst opened writes) ≡ some p
    → IsCurrent p
press_all-IsCurrent sst opened writes keys p e =
    press_all-steps sst keys (start sst opened writes) p (start-IsCurrent sst opened writes) e
