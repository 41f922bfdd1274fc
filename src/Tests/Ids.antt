-- ===== src/Tests/Ids.antt =====
-- Thread ids as paths.
use rr_channel.Prelude.{ℕ, ◌≡◌, refl, ◌↔◌, true, none, some, List, [], ◌∷◌, arith, replicate}
use rr_channel.DetThread.Id.{DetThreadId, from_slice, id_beq}
use rr_channel.DetThread.Id.Paths.{
  Represents, from_slice-Represents, from_slice_too_long, id_beq-Represents,
}
use rr_channel.Tests.Setup.{alice, bob}

alice-Represents : Represents alice (1 ∷ [])
alice-Represents = record { fits = omega arith; sized = refl; padded = refl }

bob-Represents : Represents bob (2 ∷ [])
bob-Represents = record { fits = omega arith; sized = refl; padded = refl }

from_slice-Represents_example :
    (id : DetThreadId) × (from_slice (3 ∷ 1 ∷ 2 ∷ []) ≡ some id) × Represents id (3 ∷ 1 ∷ 2 ∷ [])
from_slice-Represents_example = from_slice-Represents (3 ∷ 1 ∷ 2 ∷ []) (omega arith)

from_slice_too_long_example : from_slice (replicate 11 1) ≡ none
from_slice_too_long_example = from_slice_too_long (replicate 11 1) (omega arith)

id_beq-Represents_example : (id_beq alice bob ≡ true) ↔ ◌≡◌ {A = List ℕ} (1 ∷ []) (2 ∷ [])
id_beq-Represents_example =
    id_beq-Represents alice bob (1 ∷ []) (2 ∷ []) alice-Represents bob-Represents
