-- ===== src/Storage/Emission/Transitions/Guards.antt =====
-- repository.py, the tests of `transition_weight_emission_attempt`: what passes them.
use endure_subnet.Prelude.{ℕ, String, false, ◌≡◌, refl, not, Option, none, some, ok, arith, ◌↔◌}
use endure_subnet.Storage.Emission.{
  ConfirmationState, prepared, submitted, ambiguous, failed, confirmed, unconfirmed, Status,
  submitted_status, failed_status, error_status, SubmissionMode, direct, cr4,
}
use endure_subnet.Storage.Emission.Transitions.{
  is_prepared, state_check, metadata_check, Agrees, sent, unsure, refused_by_chain, raised,
  Metadata, sent_directly, not_committed, committed,
}

pub state_check-ok : (c : ConfirmationState) (s : Status) → (state_check c s ≡ ok tt) ↔ Agrees c s
state_check-ok c s = (agrees c s, checked)
  where
    agrees : (c : ConfirmationState) (s : Status) → state_check c s ≡ ok tt → Agrees c s
    agrees submitted submitted_status e = sent
    agrees ambiguous error_status e = unsure
    agrees failed failed_status e = refused_by_chain
    agrees failed error_status e = raised
    agrees submitted failed_status e = absurd cc
    agrees submitted error_status e = absurd cc
    agrees ambiguous submitted_status e = absurd cc
    agrees ambiguous failed_status e = absurd cc
    agrees failed submitted_status e = absurd cc
    agrees prepared s e = absurd cc
    agrees confirmed s e = absurd cc
    agrees unconfirmed s e = absurd cc

    checked : {c : ConfirmationState} {s : Status} → Agrees c s → state_check c s ≡ ok tt
    checked sent = refl
    checked unsure = refl
    checked refused_by_chain = refl
    checked raised = refl

metadata :
    (mode : SubmissionMode) (hash : Option String) (round deadline : Option ℕ)
    → metadata_check mode hash round deadline ≡ ok tt
    → Metadata mode hash round deadline
metadata direct none none none e = sent_directly
metadata direct none none (some d) e = absurd cc
metadata direct (some h) (some r) d e = absurd cc
metadata mode none (some r) d e = absurd cc
metadata mode (some h) none d e = absurd cc
metadata cr4 none none d e = not_committed d
metadata cr4 (some h) (some r) d e = committed h r d

Metadata-checked :
    {mode : SubmissionMode} {hash : Option String} {round deadline : Option ℕ}
    → Metadata mode hash round deadline
    → metadata_check mode hash round deadline ≡ ok tt
Metadata-checked sent_directly = refl
Metadata-checked (not_committed none) = refl
Metadata-checked (not_committed (some d)) = refl
Metadata-checked (committed h r none) = refl
Metadata-checked (committed h r (some d)) = refl

pub metadata_check-ok :
    (mode : SubmissionMode) (hash : Option String) (round deadline : Option ℕ)
    → (metadata_check mode hash round deadline ≡ ok tt) ↔ Metadata mode hash round deadline
metadata_check-ok mode hash round deadline = (metadata mode hash round deadline, Metadata-checked)

pub is_prepared-eq : (c : ConfirmationState) → not (is_prepared c) ≡ false → c ≡ prepared
is_prepared-eq c e = ground arith
