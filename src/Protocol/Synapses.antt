-- ===== src/Protocol/Synapses.antt =====
-- endure/protocol/synapses.py: the two messages of a round and the wire code_points of a rejection.
use endure_subnet.Prelude.{ℕ, String, Bool, Option}
use endure_subnet.Prelude.Eq.{Eq, eq_by}

pub data RejectionCode : Type 0 where
  version_mismatch unknown_schema late_commit no_commit late_reveal hash_mismatch : RejectionCode
  invalid_ticker out_of_bounds malformed_bundle payload_too_large rate_limited : RejectionCode
  round_unavailable : RejectionCode

pub record SubmitCommit : Type 0 where
  pub round_id : String
  pub schema_id : String
  pub spec_version : ℕ
  pub bundle_hash : String
  pub accepted : Bool
  pub rejection_code : Option RejectionCode

pub record SubmitReveal : Type 0 where
  pub round_id : String
  pub schema_id : String
  pub spec_version : ℕ
  pub bundle_json : String
  pub nonce_hex : String
  pub accepted : Bool
  pub rejection_code : Option RejectionCode

unfoldable pub RejectionCode-discrete : Discrete RejectionCode
RejectionCode-discrete = hlevel

instance abbrev pub code_eq : Eq RejectionCode
code_eq = eq_by RejectionCode-discrete
