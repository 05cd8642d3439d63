-- ===== src/Tests/Texts.antt =====
-- Examples of the theorems on labels, identifiers, payloads and packet numbers.
use opencord.Audio.{sequence_is_newer, sequence_is_newer-add}
use opencord.Base.{true, false}
use opencord.Base.{◌≡◌, refl, ok, arith}
use opencord.Model.ByteId.{display, from_str, from_str-display}
use opencord.Tests.Toy.{toy}

from_str-display_example : from_str toy.base64 16 (display toy.base64 16 300) ≡ ok 300
from_str-display_example = from_str-display toy.base64 16 (λ bytes h. refl) 300 (omega arith)

sequence_is_newer-add_example :
    (sequence_is_newer 0 4294967295 ≡ true) × (sequence_is_newer 4294967295 0 ≡ false)
sequence_is_newer-add_example =
    sequence_is_newer-add 4294967295 1 (omega arith) (omega arith) (omega arith)
