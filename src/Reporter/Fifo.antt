-- ===== src/Reporter/Fifo.antt =====
-- The ring of messages is a queue that is bounded and in order.
use lifi_auth.Common.{ℕ, zero, suc, ◌+◌, ◌-◌, ◌%◌, ◌≤◌, ◌<◌, ◌≡◌, ◌≢◌, refl, ap, ap₂, ◌∙◌, arith}
use lifi_auth.Common.{
  Option, some, none, List, [], ◌∷◌, ◌++◌, length, take, get_or, set, length-set, get_or-set_self,
  get_or-set_ne,
}
use lifi_auth.Common.{ltb, ◌==◌, ==_iff, if◌then◌else◌, Bool-cases, inl, inr}
use lifi_auth.Reporter.{StatusQueue, reporter_post_status_message, next_message}

-- The messages from a place in the ring on.
unfoldable pub from : List (List ℕ) → ℕ → ℕ → List (List ℕ)
from slots at zero = []
from slots at (suc n) = get_or slots at [] ∷ from slots ((at + 1) % 32) n

-- The messages that wait, the oldest first.
abbrev pub waiting : StatusQueue → List (List ℕ)
waiting q = from q.slots q.head q.count

pub record IsRing (q : StatusQueue) : Type 0 where
  pub size : length q.slots ≡ 32
  pub inside : q.head < 32
  pub fits : q.count ≤ 32
  pub ends : q.tail ≡ (q.head + q.count) % 32

length-from : (slots : List (List ℕ)) (at n : ℕ) → length (from slots at n) ≡ n
unfolding from
length-from slots at zero = refl
length-from slots at (suc n) = ap suc (length-from slots ((at + 1) % 32) n)

-- One more message at the end.
from-snoc :
    (slots : List (List ℕ)) (at n : ℕ)
    → at < 32
    → from slots at (suc n) ≡ from slots at n ++ (get_or slots ((at + n) % 32) [] ∷ [])
unfolding from
from-snoc slots at zero h = ap (λ i. get_or slots i [] ∷ []) (omega arith)
from-snoc slots at (suc n) h =
    ap (λ t. get_or slots at [] ∷ t)
      (from-snoc slots ((at + 1) % 32) n (omega arith)
        ∙ ap (λ i. from slots ((at + 1) % 32) n ++ (get_or slots i [] ∷ [])) (omega arith))

-- A write behind the messages does not touch them.
from-set :
    (slots : List (List ℕ)) (v : List ℕ) (at n k : ℕ)
    → at < 32
    → n ≤ k
    → k < 32
    → from (set slots ((at + k) % 32) v) at n ≡ from slots at n
unfolding from
from-set slots v at zero k h below fits = refl
from-set slots v at (suc n) zero h below fits = absurd (omega arith)
from-set slots v at (suc n) (suc k) h below fits =
    let other : (at + suc k) % 32 ≢ at = λ same. omega (arith, same) in
    let shift : (at + suc k) % 32 ≡ ((at + 1) % 32 + k) % 32 = omega arith in
    ap₂ ◌∷◌ (get_or-set_ne slots ((at + suc k) % 32) at v [] other) (
      ap (λ i. from (set slots i v) ((at + 1) % 32) n) shift
      ∙ from-set slots v ((at + 1) % 32) n k (omega arith) (omega arith) (omega arith))

-- What the two threads do: the main loop posts a message, the other takes one, if there is one.
pub data Use : Type 0 where
  post : List ℕ → Use
  fetch : Use

-- What is fetched in a sequence of uses.
unfoldable pub fetched : List Use → StatusQueue → List (Option (List ℕ))
fetched [] q = []
fetched (post message ∷ uses) q = fetched uses (reporter_post_status_message message q)
fetched (fetch ∷ uses) q = elim (next_message q) [
  | none ↦ none ∷ fetched uses q
  | some (message, q') ↦ some message ∷ fetched uses q'
]

-- The queue as its users see it: a list of at most 32 messages of at most 319 characters.
unfoldable pub fetched_fifo : List Use → List (List ℕ) → List (Option (List ℕ))
fetched_fifo [] ms = []
fetched_fifo (post message ∷ uses) ms =
    let dropped = fetched_fifo uses ms in
    let kept = fetched_fifo uses (ms ++ (take 319 message ∷ [])) in
    if ltb (length ms) 32 then kept else dropped
fetched_fifo (fetch ∷ uses) [] = none ∷ fetched_fifo uses []
fetched_fifo (fetch ∷ uses) (m ∷ ms) = some m ∷ fetched_fifo uses ms

-- A queue with room, once a message is in it.
abbrev pub posted : List ℕ → StatusQueue → StatusQueue
posted message q = record q {
  slots = set q.slots q.tail (take 319 message);
  tail = (q.tail + 1) % 32;
  count = q.count + 1;
}

posted-IsRing :
    (message : List ℕ) (q : StatusQueue) → IsRing q → q.count < 32 → IsRing (posted message q)
posted-IsRing message q h room = record {
  size = length-set q.slots q.tail (take 319 message) ∙ h.size;
  inside = h.inside;
  fits = omega arith;
  ends = omega (arith, h.ends, h.inside);
}

posted-waiting :
    (message : List ℕ) (q : StatusQueue)
    → IsRing q
    → q.count < 32
    → waiting (posted message q) ≡ waiting q ++ (take 319 message ∷ [])
posted-waiting message q h room =
    let v : List ℕ = take 319 message in
    let at : ℕ = (q.head + q.count) % 32 in
    let inside : at < length q.slots = omega (arith, h.size) in
    ap (from (set q.slots q.tail v) q.head) (omega arith)
    ∙ ap (λ i. from (set q.slots i v) q.head (suc q.count)) h.ends
    ∙ from-snoc (set q.slots at v) q.head q.count h.inside
    ∙ ap₂ (λ a b. a ++ (b ∷ []))
        (from-set q.slots v q.head q.count q.count h.inside (omega arith) room)
        (get_or-set_self q.slots at v [] inside)

-- A queue with a message, once it is taken.
abbrev pub taken : StatusQueue → StatusQueue
taken q = record q { head = (q.head + 1) % 32; count = q.count - 1 }

taken-IsRing : (q : StatusQueue) → IsRing q → 0 < q.count → IsRing (taken q)
taken-IsRing q h some_left = record {
  size = h.size;
  inside = omega arith;
  fits = omega (arith, h.fits);
  ends = omega (arith, h.ends, h.inside);
}

-- For any sequence of posts and fetches, what is fetched from the ring is what is fetched from a list
-- of at most 32 messages of at most 319 characters, in order, to which a post adds nothing when it is
-- full.
pub fetched-fifo :
    (uses : List Use) (q : StatusQueue) → IsRing q → fetched uses q ≡ fetched_fifo uses (waiting q)
unfolding fetched fetched_fifo reporter_post_status_message next_message from
fetched-fifo [] q h = refl
fetched-fifo (post message ∷ uses) q h =
    let size : length (waiting q) ≡ q.count = length-from q.slots q.head q.count in
    elim (Bool-cases (ltb q.count 32)) [
      | inl room ↦
          let less : q.count < 32 = ground (arith, room) in
          rw (size, room, reporter_post_status_message)
            (fetched-fifo uses (posted message q) (posted-IsRing message q h less)
              ∙ ap (fetched_fifo uses) (posted-waiting message q h less))
      | inr full ↦ rw (size, full, reporter_post_status_message) (fetched-fifo uses q h)
    ]
fetched-fifo (fetch ∷ uses) q h = elim (Bool-cases (q.count == 0)) [
  | inl empty ↦
      let zero_left : q.count ≡ 0 = (==_iff q.count 0).0 empty in
      let nothing : waiting q ≡ [] = ap (from q.slots q.head) zero_left in
      rw (nothing, empty, next_message, fetched)
        (ap (λ t. none ∷ t) (fetched-fifo uses q h ∙ ap (fetched_fifo uses) nothing))
  | inr more ↦
      let left : 0 < q.count = ground (arith, more) in
      let split : waiting q ≡ get_or q.slots q.head [] ∷ waiting (taken q) =
        ap (from q.slots q.head) {y = suc (q.count - 1)} (omega (arith, left)) in
      rw (split, more, next_message, fetched)
        (ap (λ t. some (get_or q.slots q.head []) ∷ t)
          (fetched-fifo uses (taken q) (taken-IsRing q h left)))
]
