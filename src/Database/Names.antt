-- ===== src/Database/Names.antt =====
-- crates/proof-of-sql-parser/src/identifier.rs and resource_id.rs, the types of names that the
-- other components compare, and base/database/table_ref.rs. Parsing a name is not modelled here.
use text.Mathlib.Text.{◌==◌ as str_eq}
use text.Mathlib.TextEquality.{eq_iff}
use sxt_proof_of_sql.Shared.{String, Bool, true, ◌&&◌, Eq, ◌≡◌, ◌↔◌, ap, arith}

-- The derived `PartialEq` compares the names, which `Identifier::new` has put in lower case.
pub record Identifier : Type 0 where
  pub name : String

unfoldable pub identifier_beq : Identifier → Identifier → Bool
identifier_beq a b = str_eq a.name b.name

pub identifier_beq_iff : (a b : Identifier) → (identifier_beq a b ≡ true) ↔ (a ≡ b)
unfolding identifier_beq
identifier_beq_iff a b = (
  λ h. (λ i. record { name = (eq_iff a.name b.name).0 h i }),
  λ e. (eq_iff a.name b.name).1 (ap (λ (x : Identifier). x.name) e),
)

instance abbrev pub identifier_eq : Eq Identifier
identifier_eq = record { beq = identifier_beq; beq_iff = identifier_beq_iff }

pub record ResourceId : Type 0 where
  pub schema : Identifier
  pub object_name : Identifier

pub record TableRef : Type 0 where
  pub resource_id : ResourceId

unfoldable pub schema_id : TableRef → Identifier
schema_id t = t.resource_id.schema

unfoldable pub table_id : TableRef → Identifier
table_id t = t.resource_id.object_name

unfoldable pub table_ref_beq : TableRef → TableRef → Bool
unfolding identifier_beq
table_ref_beq a b =
    identifier_beq a.resource_id.schema b.resource_id.schema
    && identifier_beq a.resource_id.object_name b.resource_id.object_name

and-eq-true : (a b : Bool) → (a && b) ≡ true → (a ≡ true) × (b ≡ true)
and-eq-true a b h = ground arith

pub table_ref_beq_iff : (a b : TableRef) → (table_ref_beq a b ≡ true) ↔ (a ≡ b)
unfolding table_ref_beq
table_ref_beq_iff a b = (
  λ h.
      let (p, q) = and-eq-true _ _ h in
      λ i. record {
        resource_id = record {
          schema = (identifier_beq_iff a.resource_id.schema b.resource_id.schema).0 p i;
          object_name =
              (identifier_beq_iff a.resource_id.object_name b.resource_id.object_name).0 q i;
        };
      },
  λ e.
      rw
        ((identifier_beq_iff a.resource_id.schema b.resource_id.schema).1
          (ap (λ (t : TableRef). t.resource_id.schema) e))
        ((identifier_beq_iff a.resource_id.object_name b.resource_id.object_name).1
          (ap (λ (t : TableRef). t.resource_id.object_name) e)),
)

instance abbrev pub table_ref_eq : Eq TableRef
table_ref_eq = record { beq = table_ref_beq; beq_iff = table_ref_beq_iff }
