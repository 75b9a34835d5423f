-- ===== src/Commitment/Tests/Query.antt =====
-- The commitments of a query on a table of 5 rows from row 10 on.
use sxt_proof_of_sql.Shared.{ℕ, ok, ◌≡◌, refl, List, [], ◌∷◌, inl, arith}
use sxt_proof_of_sql.Shared.Int.{ℤ, pos}
use sxt_proof_of_sql.Database.Names.{TableRef}
use sxt_proof_of_sql.Database.ColumnType.{ColumnType, ColumnRef}
use sxt_proof_of_sql.Database.Accessor.{CommitmentAccessor}
use sxt_proof_of_sql.Commitment.Query
use sxt_proof_of_sql.Commitment.Query.FromAccessor.{from_accessor-lengths}
use sxt_proof_of_sql.Commitment.Tests.ToyScheme.{toy}
use sxt_proof_of_sql.Commitment.Tests.Data.{maps, named}

abbrev five_rows : CommitmentAccessor ℤ
five_rows = record { get_length = λ t. 5; get_offset = λ t. 10; get_commitment = λ c. pos 7 }

abbrev sales : TableRef
sales = record { resource_id = record { schema = named "shop"; object_name = named "sales" } }

abbrev column_of : ColumnType → ColumnRef
column_of t = record { column_id = named "a"; table_ref = sales; column_type = t }

abbrev used : List ColumnRef
used =
    column_of ColumnType.big_int
    ∷ record { column_id = named "b"; table_ref = sales; column_type = ColumnType.varchar }
    ∷ []

from_accessor-lengths_example :
    (q : Query.QueryCommitments toy maps) × (Query.from_accessor_with_max_bounds toy maps {E = ℕ}
        used five_rows
      ≡ ok q)
    × (Query.get_length toy maps {E = ℕ} q sales ≡ ok 5)
    × (Query.get_offset toy maps {E = ℕ} q sales ≡ ok 10)
from_accessor-lengths_example =
    from_accessor-lengths toy maps five_rows {E = ℕ} used (column_of ColumnType.big_int)
      (omega arith, (omega arith, tt)) (inl refl)
