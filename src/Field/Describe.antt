-- ===== src/Field/Describe.antt =====
-- `Display` of the errors of interfaces/src/circuit/inputs.rs.
use crucible_prover.Base.{Text, codes, ◌++◌, show_u32}
use crucible_prover.Field.{
  FieldError, invalid_hex, invalid_name_length, invalid_name_characters, duplicate_name,
}

unfoldable pub to_string : FieldError → Text
to_string (invalid_hex reason) =
    codes "field value must be canonical lowercase hex, got: " ++ reason
to_string (invalid_name_length max) =
    codes "field name must be 1..=" ++ (show_u32 max ++ codes " characters")
to_string invalid_name_characters =
    codes "field name may only contain lowercase alphanumerics and underscores"
to_string (duplicate_name name) = codes "duplicate field name: " ++ name
