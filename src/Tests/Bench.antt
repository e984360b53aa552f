-- ===== src/Tests/Bench.antt =====
-- The theorems on the Pico receiver, at concrete inputs.
use lifi_auth.Common.{ℕ, ◌*◌, ◌^◌, ◌-◌, Option, some, none, List, [], ◌∷◌, ◌++◌, codes, map}
use lifi_auth.PicoReceiver.{rounds}
use lifi_auth.PicoReceiver.Bounds.{IsBounded, rounds-IsBounded}

-- The command `baud 500000`, and then a frame, the last round first.
abbrev typed : ℕ → Option ℕ × Option ℕ
typed c = (some c, none)

abbrev arrives : ℕ → Option ℕ × Option ℕ
arrives byte = (none, some ((255 - byte) * 2 ^ 24))

abbrev inputs : List (Option ℕ × Option ℕ)
inputs =
    map arrives (10 ∷ codes "iH" ++ (0x12 ∷ 0xEF ∷ 0xCD ∷ 0xAB ∷ []))
    ++ map typed (10 ∷ codes "000005 duab")

rounds-IsBounded_example : IsBounded (rounds inputs)
rounds-IsBounded_example = rounds-IsBounded inputs

abbrev numbers : List (List ℕ)
numbers = codes "001" ∷ codes "002" ∷ []
