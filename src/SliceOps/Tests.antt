-- ===== src/SliceOps/Tests.antt =====
-- Batch inversion in the field of five elements, and the theorem at it.
use sxt_proof_of_sql.Shared.{◌≡◌, ◌≢◌, refl, List, [], ◌∷◌, map, ok}
use sxt_proof_of_sql.Scalar.Five.{Five, m0, m1, m2, m3, m4, five}
use sxt_proof_of_sql.SliceOps.BatchInverse.{batch_inversion_and_mul, serial_batch_inversion_and_mul}
use sxt_proof_of_sql.SliceOps.BatchInverse.Serial.{scaled_inverse}
use sxt_proof_of_sql.SliceOps.BatchInverse.Chunks.{batch_inversion_and_mul-map}

one_nonzero : m1 ≢ m0
one_nonzero e = cc

abbrev some_scalars : List Five
some_scalars = m2 ∷ m0 ∷ m4 ∷ m3 ∷ []

serial_batch_inversion_and_mul_runs :
    serial_batch_inversion_and_mul some_scalars m3 ≡ ok (m4 ∷ m0 ∷ m2 ∷ m1 ∷ [])
unfolding serial_batch_inversion_and_mul
serial_batch_inversion_and_mul_runs = refl

batch_inversion_and_mul-map_example :
    batch_inversion_and_mul 3 some_scalars m3 ≡ ok (map (scaled_inverse m3) some_scalars)
batch_inversion_and_mul-map_example = batch_inversion_and_mul-map 3 some_scalars m3 one_nonzero
