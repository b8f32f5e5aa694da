-- ===== src/Storage/Emission/Lifecycle.antt =====
-- repository.py, the life of a weight emission: prepared before its call of the chain, then sent or
-- failed, then confirmed or given up.
use endure_subnet.Prelude.{
  ℕ, ◌≤◌, String, Bool, true, false, ◌≡◌, refl, ◌&&◌, List, [], ◌∷◌, if◌then◌else◌, Result, ok, err,
  arith, Bool-cases, inl, inr, ◌∙◌, ◌↔◌, sym, ap, then_ok, raise_if_ok,
}
use endure_subnet.Prelude.Eq.{◌==◌, string_eq}
use endure_subnet.Storage.Emission.{
  ConfirmationState, prepared, submitted, ambiguous, failed, confirmed, unconfirmed,
  is_open_confirmation, WeightEmissionChainSnapshot, Batch, WeightResolutionDecision, observe,
  confirm, unconfirm, wait,
}
use endure_subnet.Storage.Emission.Transitions.{
  TransitionError, Transition, is_prepared, state_check, metadata_check,
  transition_weight_emission_attempt, Agrees, Metadata, Becomes,
}
use endure_subnet.Storage.Emission.Transitions.Guards.{
  state_check-ok, metadata_check-ok, is_prepared-eq,
}
use endure_subnet.Storage.Emission.Transitions.Deadlines.{moved-Becomes, Becomes-moved}
use endure_subnet.Storage.Emission.Resolve.{
  IntentHash, decision, apply_weight_resolution, resolve_batch,
}

ok-inj : {E A : Type 0} {a b : A} → ◌≡◌ {A = Result E A} (ok a) (ok b) → a ≡ b
ok-inj e = cc

-- A transition succeeds, and leaves a given vote, exactly where the vote is prepared, the new state
-- and the transport status go together, the metadata is that of the mode, and the vote it leaves has
-- the state, status, mode and metadata of the call, deadlines that are not before the old ones nor
-- before the call's, and all else as before.
pub transition-ok :
    (t : Transition) (batch batch' : Batch)
    → (transition_weight_emission_attempt t batch ≡ ok batch') ↔ (
        Agrees t.confirmation_state t.status
        × Metadata t.submission_mode t.commitment_hash t.reveal_round t.cr4_reveal_deadline_block
        × (batch.confirmation_state ≡ prepared)
        × Becomes t batch batch')
unfolding transition_weight_emission_attempt
transition-ok t batch batch' = (succeeded, succeeds)
  where
    succeeded :
        transition_weight_emission_attempt t batch ≡ ok batch'
        → Agrees t.confirmation_state t.status
          × Metadata t.submission_mode t.commitment_hash t.reveal_round t.cr4_reveal_deadline_block
          × (batch.confirmation_state ≡ prepared)
          × Becomes t batch batch'
    succeeded e =
        let (agreed, rest) = then_ok (state_check t.confirmation_state t.status) _ e in
        let (complete, last) =
          then_ok
            (metadata_check t.submission_mode t.commitment_hash t.reveal_round
              t.cr4_reveal_deadline_block)
            _ rest in
        let (found, new) = then_ok _ _ last in
        (
          (state_check-ok _ _).0 agreed,
          (metadata_check-ok _ _ _ _).0 complete,
          is_prepared-eq _ (raise_if_ok _ _ found),
          moved-Becomes t batch batch' (ok-inj (sym new)),
        )

    succeeds :
        Agrees t.confirmation_state t.status
          × Metadata t.submission_mode t.commitment_hash t.reveal_round t.cr4_reveal_deadline_block
          × (batch.confirmation_state ≡ prepared)
          × Becomes t batch batch'
        → transition_weight_emission_attempt t batch ≡ ok batch'
    succeeds (agreed, complete, found, becomes) = rw ((state_check-ok _ _).1 agreed) (
        rw ((metadata_check-ok _ _ _ _).1 complete)
          (rw found (ap ok (sym (Becomes-moved t batch batch' becomes)))))

-- How far a vote has come
abbrev pub stage : ConfirmationState → ℕ
stage prepared = 0
stage submitted = 1
stage ambiguous = 1
stage failed = 2
stage confirmed = 2
stage unconfirmed = 2

pub data EmissionOp : Type 0 where
  transition_op : Transition → EmissionOp
  resolve_op : IntentHash → WeightEmissionChainSnapshot → ℕ → String → ℕ → EmissionOp

abbrev pub or_same : Result TransitionError Batch → Batch → Batch
or_same (ok batch') batch = batch'
or_same (err _) batch = batch

unfoldable pub apply_op : EmissionOp → Batch → Batch
unfolding transition_weight_emission_attempt
apply_op (transition_op t) batch = or_same (transition_weight_emission_attempt t batch) batch
apply_op (resolve_op f snapshot margin schema_id now) batch =
    resolve_batch f snapshot margin schema_id now batch

abbrev pub run_ops : List EmissionOp → Batch → Batch
run_ops [] batch = batch
run_ops (op ∷ ops) batch = run_ops ops (apply_op op batch)

abbrev Forward : Batch → Batch → Type 0
Forward b b' =
    (stage b.confirmation_state ≤ stage b'.confirmation_state)
    × (stage b.confirmation_state ≡ 2 → b' ≡ b)

stays : (b b' : Batch) → b' ≡ b → Forward b b'
stays b b' e = (rw e (omega arith), λ _. e)

prepared_stage : (st : ConfirmationState) → is_prepared st ≡ true → stage st ≡ 0
prepared_stage st e = ground arith

open_stage : (st : ConfirmationState) → is_open_confirmation st ≡ true → stage st ≤ 1
open_stage st e = ground arith

refused :
    (t : Transition) (batch : Batch)
    → is_prepared batch.confirmation_state ≡ false
    → or_same (transition_weight_emission_attempt t batch) batch ≡ batch
unfolding transition_weight_emission_attempt
refused t batch e = ground arith

transition-Forward :
    (t : Transition) (batch : Batch)
    → Forward batch (or_same (transition_weight_emission_attempt t batch) batch)
transition-Forward t batch = elim (Bool-cases (is_prepared batch.confirmation_state)) [
  | inl p ↦
      let first = prepared_stage batch.confirmation_state p in
      (omega (arith, first), λ last. absurd (omega (arith, first, last)))
  | inr p ↦ stays batch _ (refused t batch p)
]

applied-Forward :
    (d : WeightResolutionDecision) (now : ℕ) (batch : Batch)
    → stage batch.confirmation_state ≤ 1
    → Forward batch (apply_weight_resolution d now batch)
unfolding apply_weight_resolution
applied-Forward (observe o) now batch h = (omega arith, λ last. absurd (omega (arith, h, last)))
applied-Forward confirm now batch h = (omega (arith, h), λ last. absurd (omega (arith, h, last)))
applied-Forward unconfirm now batch h = (omega (arith, h), λ last. absurd (omega (arith, h, last)))
applied-Forward wait now batch h = stays batch batch refl

resolution-Forward :
    (same is_open : Bool) (d : WeightResolutionDecision) (now : ℕ) (batch : Batch)
    → is_open_confirmation batch.confirmation_state ≡ is_open
    → Forward batch (if same && is_open then apply_weight_resolution d now batch else batch)
resolution-Forward true true d now batch e =
    applied-Forward d now batch (open_stage batch.confirmation_state e)
resolution-Forward true false d now batch e = stays batch batch refl
resolution-Forward false is_open d now batch e = stays batch batch refl

op-Forward : (op : EmissionOp) (batch : Batch) → Forward batch (apply_op op batch)
unfolding apply_op resolve_batch
op-Forward (transition_op t) batch = transition-Forward t batch
op-Forward (resolve_op f snapshot margin schema_id now) batch =
    resolution-Forward (batch.schema_id == schema_id)
      (is_open_confirmation batch.confirmation_state) (decision f snapshot margin batch) now batch
      refl

-- A vote only moves forward, from prepared through sent to failed, confirmed or unconfirmed, under any
-- transitions and resolutions, and once it is failed, confirmed or unconfirmed nothing of it changes.
pub run_ops-forward :
    (ops : List EmissionOp) (batch : Batch)
    → (stage batch.confirmation_state ≤ stage (run_ops ops batch).confirmation_state)
      × (stage batch.confirmation_state ≡ 2 → run_ops ops batch ≡ batch)
run_ops-forward [] batch = stays batch batch refl
run_ops-forward (op ∷ ops) batch =
    let step = op-Forward op batch in
    let rest = run_ops-forward ops (apply_op op batch) in
    (omega (arith, step.0, rest.0), λ last. rest.1 (rw (step.1 last) last) ∙ step.1 last)
