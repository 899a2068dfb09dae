-- ===== src/Noir/Compiler/Runs.antt =====
-- What a captured run of `nargo execute` leaves.
use crucible_prover.Base.{false, not, ◌&&◌, none, some, if◌then◌else◌, ◌≡◌}
use crucible_prover.Machine.{FilePath, Machine}
use crucible_prover.Noir.Compiler.{CapturedExecute}

module _ {S : Type 0} (m : Machine S) where
  -- The witness file is named exactly when the run was solved, and is there then.
  pub record IsCaptured (s : S) (path : FilePath) (c : CapturedExecute) : Type 0 where
    pub named : c.witness_path ≡ (if c.solved then some path else none)
    pub written : (c.solved && not (m.is_file s path)) ≡ false
