-- ===== src/Storage/Emission/Transitions.antt =====
-- repository.py, `transition_weight_emission_attempt`: what a prepared weight emission becomes after
-- its one call of the chain.
pub mod Guards
pub mod Deadlines
use endure_subnet.Prelude.{
  ℕ, ◌≤◌, String, Bool, true, false, ◌≡◌, refl, ◌∙◌, ap, sym, leb, inl, inr, Bool-cases, ◌&&◌, ◌||◌,
  not, Option, none, some, max, if◌then◌else◌, is_some, is_none, Result, ok, err, ◌>>=◌, ◌>>◌,
  raise_if, then_ok, raise_if_ok, arith, ◌↔◌,
}
use endure_subnet.Storage.Emission.{
  ConfirmationState, prepared, submitted, ambiguous, failed, confirmed, unconfirmed, Status,
  submitted_status, failed_status, error_status, SubmissionMode, direct, cr4, Batch,
}

pub data TransitionError : Type 0 where
  invalid_transition status_mismatch half_metadata metadata_needs_cr4 : TransitionError
  reveal_deadline_needs_cr4 not_transitionable : TransitionError

abbrev pub is_cr4 : SubmissionMode → Bool
is_cr4 cr4 = true
is_cr4 direct = false

abbrev pub is_prepared : ConfirmationState → Bool
is_prepared prepared = true
is_prepared _ = false

-- The tests of the new state, and of the transport status that it goes with
abbrev pub state_check : ConfirmationState → Status → Result TransitionError Unit
state_check submitted submitted_status = ok tt
state_check submitted _ = err status_mismatch
state_check ambiguous error_status = ok tt
state_check ambiguous _ = err status_mismatch
state_check failed submitted_status = err status_mismatch
state_check failed _ = ok tt
state_check _ _ = err invalid_transition

-- The new value of a column that an argument may raise; `if_null` is for a column that is NULL.
abbrev pub later : (ℕ → Option ℕ) → Option ℕ → Option ℕ → Option ℕ
later if_null column none = column
later if_null none (some deadline) = if_null deadline
later if_null (some old) (some deadline) = some (max old deadline)

-- SQLite's `max` of a column and a value is NULL where the column is.
abbrev pub later_deadline : Option ℕ → Option ℕ → Option ℕ
later_deadline = later (λ _. none)

-- `coalesce` puts the argument in place of NULL.
abbrev pub later_reveal_deadline : Option ℕ → Option ℕ → Option ℕ
later_reveal_deadline = later some

pub record Transition : Type 0 where
  pub status : Status
  pub confirmation_state : ConfirmationState
  pub submission_mode : SubmissionMode
  pub commitment_hash : Option String
  pub reveal_round : Option ℕ
  pub confirmation_deadline_block : Option ℕ
  pub cr4_reveal_deadline_block : Option ℕ

abbrev pub moved : Transition → Batch → Batch
moved t batch = record batch {
  status = t.status;
  confirmation_state = t.confirmation_state;
  submission_mode = t.submission_mode;
  commitment_hash = t.commitment_hash;
  reveal_round = t.reveal_round;
  confirmation_deadline_block =
      later_deadline batch.confirmation_deadline_block t.confirmation_deadline_block;
  cr4_reveal_deadline_block =
      later_reveal_deadline batch.cr4_reveal_deadline_block t.cr4_reveal_deadline_block;
}

-- The tests of the metadata of a committed vote
abbrev pub metadata_check :
    SubmissionMode → Option String → Option ℕ → Option ℕ → Result TransitionError Unit
metadata_check mode commitment_hash reveal_round reveal_deadline = do
  raise_if
      (is_some commitment_hash && is_none reveal_round
        || is_none commitment_hash && is_some reveal_round)
      half_metadata
  raise_if (is_some commitment_hash && not (is_cr4 mode)) metadata_needs_cr4
  raise_if (is_some reveal_deadline && not (is_cr4 mode)) reveal_deadline_needs_cr4

unfoldable pub transition_weight_emission_attempt :
    Transition → Batch → Result TransitionError Batch
transition_weight_emission_attempt t batch = do
  state_check t.confirmation_state t.status
  metadata_check t.submission_mode t.commitment_hash t.reveal_round t.cr4_reveal_deadline_block
  raise_if (not (is_prepared batch.confirmation_state)) not_transitionable
  ok (moved t batch)

-- The states and statuses that go together
pub data Agrees : ConfirmationState → Status → Type 0 where
  sent : Agrees submitted submitted_status
  unsure : Agrees ambiguous error_status
  refused_by_chain : Agrees failed failed_status
  raised : Agrees failed error_status

-- Mode, commitment hash, reveal round and reveal deadline of a vote: a direct one has none of the
-- last three, and a committed one has both hash and round or neither.
pub data Metadata : SubmissionMode → Option String → Option ℕ → Option ℕ → Type 0 where
  sent_directly : Metadata direct none none none
  not_committed : (deadline : Option ℕ) → Metadata cr4 none none deadline
  committed :
      (hash : String) (round : ℕ) (deadline : Option ℕ)
      → Metadata cr4 (some hash) (some round) deadline

-- What a deadline becomes: its column, the argument and the new value. `if_null` is the value where
-- the column is NULL.
pub data IsLater (if_null : ℕ → Option ℕ) : Option ℕ → Option ℕ → Option ℕ → Type 0 where
  no_argument : (column : Option ℕ) → IsLater if_null column none column
  null_column : (new : ℕ) → IsLater if_null none (some new) (if_null new)
  moved_back : (old new : ℕ) → old ≤ new → IsLater if_null (some old) (some new) (some new)
  kept : (old new : ℕ) → new ≤ old → IsLater if_null (some old) (some new) (some old)

-- What a transition makes of a prepared vote
abbrev pub Becomes : Transition → Batch → Batch → Type 0
Becomes t batch batch' =
    (deadline : Option ℕ) × (reveal_deadline : Option ℕ) × IsLater (λ _. none)
      batch.confirmation_deadline_block t.confirmation_deadline_block deadline
    × IsLater some batch.cr4_reveal_deadline_block t.cr4_reveal_deadline_block reveal_deadline
    × (batch' ≡ record batch {
      status = t.status;
      confirmation_state = t.confirmation_state;
      submission_mode = t.submission_mode;
      commitment_hash = t.commitment_hash;
      reveal_round = t.reveal_round;
      confirmation_deadline_block = deadline;
      cr4_reveal_deadline_block = reveal_deadline;
    })
