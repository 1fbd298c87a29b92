-- ===== src/Examples/Http.antt =====
-- Examples of what the gateway makes of a pull.
use ouroboros_fs.Base.{ℕ, ◌≡◌, refl, true, List, [], ◌∷◌, ◌++◌, arith, length, ◌≤◌}
use ouroboros_fs.Text.{codes}
use ouroboros_fs.Text.Decimal.{decimal}
use ouroboros_fs.Server.Pull.{truncation_trailer}
use ouroboros_fs.Gateway.Stream.{stream_with_truncation_detection, max_trailer_len}
use ouroboros_fs.Gateway.Stream.Windows.{NoneEmpty, concat, stream-truncation_trailer}

abbrev passed_on : List ℕ
passed_on = codes "abc"

abbrev blocks : List (List ℕ)
blocks = codes "abc\nERR trunc" ∷ codes "ated expected=5 got=3\n" ∷ []

blocks-NoneEmpty : NoneEmpty blocks
blocks-NoneEmpty = (refl, (refl, tt))

blocks_are : concat blocks ≡ passed_on ++ truncation_trailer 5 3
unfolding truncation_trailer decimal
blocks_are = refl

trailer_fits : length (truncation_trailer 5 3) ≤ max_trailer_len
unfolding truncation_trailer decimal
trailer_fits = omega arith

stream-truncation_trailer_example : stream_with_truncation_detection blocks ≡ (passed_on, true)
stream-truncation_trailer_example =
    stream-truncation_trailer blocks passed_on 5 3 blocks-NoneEmpty blocks_are trailer_fits
