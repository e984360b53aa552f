-- ===== src/PicoReceiver/Frames.antt =====
-- Messages as they arrive, and the count of a speed test.
use lifi_auth.Common.{ℕ, ◌≤◌, ◌≡◌, ◌≢◌, Bool, true, false, ◌||◌}
use lifi_auth.Common.{List, [], ◌∷◌, ◌++◌, All, length, ◌==◌, codes}
use lifi_auth.Common.{if◌then◌else◌}
use lifi_auth.PicoReceiver.{PicoReceiver, RxState, Output, hunt}

-- A character that does not end the message.
abbrev pub IsInside : ℕ → Type 0
IsInside c = (c ≢ 10) × (c ≢ 13)

-- The same as a test, for the texts of the protocol.
abbrev all_inside : List ℕ → Bool
all_inside [] = true
all_inside (c ∷ cs) = if (c == 10) || (c == 13) then false else all_inside cs

-- The frame of a message: preamble, text and line feed.
abbrev pub framed : List ℕ → List ℕ
framed text = 0xAB ∷ 0xCD ∷ 0xEF ∷ 0x12 ∷ (text ++ (10 ∷ []))

-- A test is running: its rate, the packets so far, and what has been printed.
record IsTesting (baud n : ℕ) (out : List Output) (state : RxState) (active : Bool) (recv at : ℕ)
    (printed : List Output) : Type 0 where
  pub hunting : state ≡ hunt
  pub running : active ≡ true
  pub counted : recv ≡ n
  pub begun_at : at ≡ baud
  pub shown : printed ≡ out

abbrev IsCounting : ℕ → ℕ → List Output → PicoReceiver → Type 0
IsCounting baud n out r =
    IsTesting baud n out r.state r.test_active r.test_recv r.test_baud r.printed

-- The packets of a test, each with some text behind `PKT`.
abbrev pub packets : List (List ℕ) → List ℕ
packets [] = []
packets (rest ∷ rests) = framed (codes "PKT" ++ rest) ++ packets rests

abbrev pub IsPacket : List ℕ → Type 0
IsPacket rest = All IsInside rest × (length rest ≤ 508)
