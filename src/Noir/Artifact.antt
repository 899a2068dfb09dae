-- ===== src/Noir/Artifact.antt =====
-- The compiled artifact of a circuit: crates/noir/src/artifact.rs.
use crucible_prover.Base.{
  ℕ, Bool, not, ◌&&◌, List, Option, Text, Bytes, codes, Result, map_err, leb, ◌==◌, text_eq, ◌>>=◌,
  is_empty, len, all, is_ascii_hexdigit, retain, map,
}
use crucible_prover.Machine.{FilePath, display, Machine}
use crucible_prover.Noir.{NoirError, io, malformed_artifact}

mutual
  pub data AbiType : Type 0 where
    field boolean : AbiType
    integer : ℕ → Bool → AbiType
    array : AbiType → ℕ → AbiType
    struct : Fields → AbiType
    string : ℕ → AbiType

  pub data Fields : Type 0 where
    none_left : Fields
    named : Text → AbiType → Fields → Fields

pub record AbiParameter : Type 0 where
  pub name : Text
  pub visibility : Text
  pub param_type : AbiType

pub record ReturnType : Type 0 where
  pub abi_type : AbiType
  pub visibility : Text

pub record Abi : Type 0 where
  pub parameters : List AbiParameter
  pub return_type : Option ReturnType

pub record CompiledArtifact : Type 0 where
  pub noir_version : Text
  pub hash : Text
  pub abi : Abi
  pub bytecode : Text

-- `CompiledArtifact::public_parameter_names`
unfoldable pub public_parameter_names : CompiledArtifact → List Text
public_parameter_names a =
    map (λ p. p.name) (retain (λ p. p.visibility == codes "public") a.abi.parameters)

-- `CompiledArtifact::hash_is_well_formed`
unfoldable pub hash_is_well_formed : CompiledArtifact → Bool
hash_is_well_formed a =
    not (is_empty a.hash) && (leb (len a.hash) 64 && all is_ascii_hexdigit a.hash)

-- `serde_json::from_slice` of an artifact is a parameter.
module _ (from_slice : Bytes → Result Text CompiledArtifact) where
  -- `CompiledArtifact::from_bytes`
  unfoldable pub from_bytes : Bytes → FilePath → Result NoirError CompiledArtifact
  from_bytes bytes path = map_err (malformed_artifact (display path)) (from_slice bytes)

  module _ {S : Type 0} (m : Machine S) where
    -- `CompiledArtifact::from_file`
    unfoldable pub from_file : S → FilePath → Result NoirError CompiledArtifact
    from_file s path = do bytes ← map_err (io (display path)) (m.read s path); from_bytes bytes path
