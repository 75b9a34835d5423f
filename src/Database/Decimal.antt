-- ===== src/Database/Decimal.antt =====
-- crates/proof-of-sql/src/base/math/decimal.rs, `Precision`. A `u8` and an `i8` are plain numbers.
use sxt_proof_of_sql.Shared.{ℕ, Result, ok, err, ◌==◌, ltb, ◌||◌, if◌then◌else◌}

pub record Precision : Type 0 where
  pub value : ℕ

-- The one error of this file that the model needs; the text of the message is left out.
pub data PrecisionError : Type 0 where
  precision_parse_error : ℕ → PrecisionError

abbrev pub max_supported_precision : ℕ
max_supported_precision = 75

unfoldable pub precision_new : ℕ → Result PrecisionError Precision
precision_new value =
    if ltb max_supported_precision value || value == 0
    then err (precision_parse_error value)
    else ok (record { value = value })
