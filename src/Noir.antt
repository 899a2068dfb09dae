-- ===== src/Noir.antt =====
-- The adapter of the Noir toolchain: the errors of crates/noir/src/errors.rs, as text too.
pub mod Toolchain
pub mod Info
pub mod Artifact
pub mod Compiler
use crucible_prover.Base.{ℕ, suc, Text, codes, ◌∷◌, ◌++◌, show_u32}
use crucible_prover.Machine.{ℤ, pos, negsuc}

pub data NoirError : Type 0 where
  binary_not_found : NoirError
  unsupported_version : Text → ℕ → NoirError
  version_parse : Text → NoirError
  command_failed : Text → ℤ → NoirError
  expected_output io malformed_artifact : Text → Text → NoirError

unfoldable pub show_i32 : ℤ → Text
show_i32 (pos n) = show_u32 n
show_i32 (negsuc n) = b'-' ∷ show_u32 (suc n)

unfoldable pub to_string : NoirError → Text
unfolding show_i32
to_string binary_not_found =
    codes "nargo binary not found on PATH; is the Noir toolchain installed?"
to_string (unsupported_version found supported) =
    codes "unsupported nargo version `"
    ++ (found ++ (codes "` (this adapter supports major " ++ (show_u32 supported ++ codes ")")))
to_string (version_parse text) = codes "could not parse nargo version output: " ++ text
to_string (command_failed command status) =
    codes "nargo command `" ++ (command ++ (codes "` failed with exit status " ++ show_i32 status))
to_string (expected_output path command) =
    codes "expected `"
    ++ (path ++ (codes "` to exist after `nargo " ++ (command ++ codes "`, but it does not")))
to_string (io path reason) = codes "could not read `" ++ (path ++ (codes "`: " ++ reason))
to_string (malformed_artifact path reason) =
    codes "artifact `" ++ (path ++ (codes "` is malformed: " ++ reason))

-- The conversion from an error of the operating system.
abbrev pub from_io_error : Text → NoirError
from_io_error error = io (codes "<unknown>") error
