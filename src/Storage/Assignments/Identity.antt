-- ===== src/Storage/Assignments/Identity.antt =====
-- The identity columns of crates/core-storage-sqlite/src/lib.rs determine a profile and a control.
use keyro_core.Common.{◌≡◌, refl, ap, ◌∙◌, sym, true, eq_iff, arith, subst, int_eq_iff}
use keyro_core.Domain.Ids.{UuidCrate, UuidLaws, Uuid, ProfileId, profile_id_text}
use keyro_core.Domain.Layout.{ControlId}
use keyro_core.Domain.Layout.Ranges.{control_eq_iff}
use keyro_core.Storage.Database.{AssignmentRow, ControlColumns}
use keyro_core.Storage.Statements.{has_identity, columns_eq}
use keyro_core.Storage.Columns.{encode_control}
use keyro_core.Storage.Columns.RoundTrip.{columns_eq-encode_control}

pub same_columns : (c : ControlId) → columns_eq (encode_control c) (encode_control c) ≡ true
same_columns c = columns_eq-encode_control c c ∙ (control_eq_iff c c).1 refl

columns_eq-eq : (a b : ControlColumns) → columns_eq a b ≡ true → a ≡ b
columns_eq-eq a b h = ground (
  arith,
  int_eq_iff a.page_index b.page_index,
  int_eq_iff a.control_index b.control_index,
  eq_iff a.control_kind b.control_kind,
  eq_iff a.control_operation b.control_operation,
)

encode_control-injective : (c d : ControlId) → encode_control c ≡ encode_control d → c ≡ d
encode_control-injective c d h = (control_eq_iff c d).0 (
    sym (columns_eq-encode_control c d)
    ∙ subst (λ x. columns_eq (encode_control c) x ≡ true) h (same_columns c))

module _ ⦃uuid : UuidCrate⦄ where
  pub text-injective : UuidLaws uuid → (u v : Uuid) → uuid.to_string u ≡ uuid.to_string v → u ≡ v
  text-injective laws u v h =
      ground (arith, laws.parse-to_string u, laws.parse-to_string v, ap uuid.parse_str h)

  -- The identity columns of a row determine the profile and the control.
  pub has_identity_unique :
      UuidLaws uuid
      → (i j : ProfileId) (c d : ControlId) (row : AssignmentRow)
      → has_identity (profile_id_text i) (encode_control c) row ≡ true
      → has_identity (profile_id_text j) (encode_control d) row ≡ true
      → (i ≡ j) × (c ≡ d)
  unfolding profile_id_text
  has_identity_unique laws i j c d row h k = (
    text-injective laws i j (
        ground (
          arith,
          eq_iff row.profile_id (uuid.to_string i),
          eq_iff row.profile_id (uuid.to_string j),
        )),
    encode_control-injective c d (
        ground (
          arith,
          columns_eq-eq row.control (encode_control c),
          columns_eq-eq row.control (encode_control d),
        )),
  )
