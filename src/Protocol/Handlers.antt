-- ===== src/Protocol/Handlers.antt =====
-- endure/protocol/handlers.py: the commit and reveal handlers of the axon. `HandleCommit` and
-- `HandleReveal` have the code, over the calls to repository.py that it makes.
pub mod HandleCommit
pub mod HandleReveal
pub mod Commits
pub mod Admission
pub mod Reveals
use endure_subnet.Prelude.{ℕ, String, true, none, List}
use endure_subnet.Protocol.Validation.{Verdict, SchemaRegistry}

pub record SubmissionHandlers : Type 0 where
  pub schema_id : String
  pub max_commits : ℕ
  pub max_reveals : ℕ
  pub registry : SchemaRegistry
  -- the hex digest of blake2b, with 32 bytes
  pub digest : List ℕ → String

abbrev pub accept : Verdict
accept = record { accepted = true; rejection_code = none; bundle = none }
