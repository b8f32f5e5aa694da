-- ===== src/Protocol/Vertical/Closing.antt =====
-- vertical.py, `resolve_due`: when a round is closed.
use endure_subnet.Prelude.{
  ℕ, suc, String, Bool, true, false, ◌&&◌, ◌≡◌, refl, sym, ap, ◌∙◌, subst, Option, none, some, List,
  [], ◌∷◌, all, All, leb, arith, Bool-cases, &&-eq-true, inl, inr, ◌⊎◌, ◌≢◌,
}
use endure_subnet.Prelude.Eq.{string_eq, pair_eq}
use endure_subnet.Prelude.Dict.{Dict, lookup, lookup-insert_self}
use endure_subnet.Protocol.RoundEngine.{RoundWindows}
use endure_subnet.Storage.Tables.{
  Storage, RoundKey, RoundRow, RoundState, closed, partially_scored, is_opened,
}
use endure_subnet.Storage.Rounds.{round_state, state_of}
use endure_subnet.Storage.Consensus.{set_round_state, put_state, snapshot_if_open}
use endure_subnet.Storage.Scores.{ScoreTables, has_assessment_resolution_marker}
use endure_subnet.Scoring.Orchestrator.{ResolutionBudget, exhausted}
use endure_subnet.Protocol.Vertical.{
  AssessmentRoundProgram, Outcome, scored, deadline_reached, failed, Scorer, Progress,
  horizon_due_at, after_pass, pass_over, state_after, set_state, resolve_due,
}

state-put_state :
    (r c : String) (state : RoundState) (now : ℕ) (o : Option RoundRow) (s : Storage)
    → lookup (r, c) s.rounds ≡ o
    → state_of (lookup (r, c) (put_state (r, c) state now o s).rounds)
      ≡ elim o [ none ↦ none | some _ ↦ some state ]
state-put_state r c state now none s e = rw e refl
state-put_state r c state now (some row) s e = rw (lookup-insert_self (r, c) _ s.rounds) refl

rounds-snapshot_if_open :
    (r c : String) (now : ℕ) (s : Storage) → (snapshot_if_open r c now s).rounds ≡ s.rounds
unfolding snapshot_if_open
rounds-snapshot_if_open r c now s = ground arith

-- Setting a state of a round: that state, if the round is there
state-set_round_state :
    (r c : String) (state : RoundState) (now : ℕ) (s : Storage)
    → round_state r c (set_round_state r c state now s)
      ≡ elim (lookup (r, c) s.rounds) [ none ↦ none | some _ ↦ some state ]
unfolding round_state set_round_state
state-set_round_state r c state now s = elim (Bool-cases (is_opened state)) [
  | inl opening ↦ rw opening (state-put_state r c state now (lookup (r, c) s.rounds) s refl)
  | inr past ↦ rw past (
      state-put_state r c state now (lookup (r, c) (snapshot_if_open r c now s).rounds)
        (snapshot_if_open r c now s) refl
      ∙ ap
          (λ (rounds : Dict RoundKey RoundRow).
            elim (lookup (r, c) rounds) as (λ _. Option RoundState) [
              | none ↦ none
              | some _ ↦ some state
            ])
          (rounds-snapshot_if_open r c now s))
]

some_state : {a b : RoundState} → some a ≡ some b → a ≡ b
some_state e = cc

partially_ne_closed : partially_scored ≡ closed → ⊥
partially_ne_closed e = cc

-- A state that is set and that the round then has
set_state-cases :
    (program : AssessmentRoundProgram) (scorer : Scorer) (round_id : String)
    (windows : RoundWindows) (now : ℕ) (budget : ResolutionBudget) (p : Progress) (s : Storage)
    → round_state round_id program.schema_id (
        set_state program scorer round_id windows now budget
          (state_after program scorer round_id windows now budget p)
          s)
      ≡ some closed
    → (round_state round_id program.schema_id s ≡ some closed)
      ⊎ (all
            (λ h. has_assessment_resolution_marker round_id program.schema_id h p.tables)
            program.horizons
          ≡ true)
set_state-cases program scorer r windows now budget p s e =
    let marked =
      all (λ h. has_assessment_resolution_marker r program.schema_id h p.tables) program.horizons in
    elim (Bool-cases (p.all_resolved && marked)) [
      | inl done ↦ inr (&&-eq-true p.all_resolved marked done).1
      | inr still ↦ elim (Bool-cases p.scored_this_round) [
        | inl some_scored ↦ absurd (
            not_closed (lookup (r, program.schema_id) s.rounds) (
              sym (state-set_round_state r program.schema_id partially_scored now s)
              ∙ rw (still, some_scored) at e))
        | inr none_scored ↦ inl (rw (still, none_scored) at e)
      ]
    ]
  where
    not_closed :
        (o : Option RoundRow)
        → (elim o [ none ↦ none | some _ ↦ some partially_scored ]) ≡ some closed
        → ⊥
    not_closed none e = cc
    not_closed (some row) e = partially_ne_closed (some_state e)

-- A round that is not closed is so after a tick only if every horizon of the program then has its
-- marker for the round, whatever passes fail, are put off by the budget or are not due.
pub resolve_due-closed :
    (program : AssessmentRoundProgram) (scorer : Scorer) (round_id : String)
    (windows : RoundWindows) (now : ℕ) (budget : ResolutionBudget) (s : Storage) (t : ScoreTables)
    (reading : ℕ)
    → round_state round_id program.schema_id s ≢ some closed
    → round_state round_id program.schema_id
        (resolve_due program scorer round_id windows now budget s t reading).1
      ≡ some closed
    → all
        (λ h.
          has_assessment_resolution_marker round_id program.schema_id h
            (resolve_due program scorer round_id windows now budget s t reading).0.tables)
        program.horizons
      ≡ true
unfolding resolve_due
resolve_due-closed program scorer r windows now budget s t reading before e =
    elim (set_state-cases program scorer r windows now budget
      (pass_over program scorer r windows now budget program.horizons _) s e) [
        | inl already ↦ absurd (before already)
        | inr marked ↦ marked
      ]

-- A pass that ends with the marker of its horizon, and leaves the markers there are
abbrev pub Completes : AssessmentRoundProgram → String → ℕ → ScoreTables → Outcome → Type 0
Completes program r horizon t (scored t') =
    (has_assessment_resolution_marker r program.schema_id horizon t' ≡ true)
    × ((h : ℕ)
        → has_assessment_resolution_marker r program.schema_id h t ≡ true
        → has_assessment_resolution_marker r program.schema_id h t' ≡ true)
Completes program r horizon t _ = ⊥

module _ (program : AssessmentRoundProgram) (scorer : Scorer) (r : String) (windows : RoundWindows)
    (now : ℕ) (budget : ResolutionBudget)
    (in_budget : (reading : ℕ) → exhausted budget reading ≡ false)
    (completes : (h : ℕ) (t : ScoreTables) (reading : ℕ)
      → Completes program r h t (scorer h t reading).1) where
  abbrev marked : ℕ → ScoreTables → Bool
  marked h t = has_assessment_resolution_marker r program.schema_id h t

  abbrev loop : List ℕ → Progress → Progress
  loop hs p = pass_over program scorer r windows now budget hs p

  abbrev Ends : List ℕ → Progress → Progress → Type 0
  Ends hs p q =
      (q.all_resolved ≡ true)
      × ((h : ℕ) → marked h p.tables ≡ true → marked h q.tables ≡ true)
      × (all (λ h. marked h q.tables) hs ≡ true)

  pass_over-Ends :
      (hs : List ℕ) (p : Progress)
      → All (λ h. leb now (horizon_due_at program windows h) ≡ false) hs
      → p.all_resolved ≡ true
      → Ends hs p (loop hs p)
  unfolding pass_over
  pass_over-Ends [] p due clean = (clean, λ h m. m, refl)
  pass_over-Ends (h ∷ hs) p (over, due) clean = elim (Bool-cases (marked h p.tables)) [
    | inl found ↦
        let (ok_now, kept, rest) = pass_over-Ends hs p due clean in
        subst (Ends (h ∷ hs) p) (sym (skips h hs p found)) (ok_now, kept, rw (kept h found) rest)
    | inr missing ↦ subst (Ends (h ∷ hs) p) (sym (makes h hs p missing over)) (
        passed h hs p (scorer h p.tables (suc p.reading)) (completes h p.tables (suc p.reading))
          (λ q clean'. pass_over-Ends hs q due clean') clean)
  ]
    where
      skips :
          (h : ℕ) (hs : List ℕ) (p : Progress)
          → marked h p.tables ≡ true
          → loop (h ∷ hs) p ≡ loop hs p
      skips h hs p found = rw found refl

      makes :
          (h : ℕ) (hs : List ℕ) (p : Progress)
          → marked h p.tables ≡ false
          → leb now (horizon_due_at program windows h) ≡ false
          → loop (h ∷ hs) p
            ≡ after_pass program scorer r windows now budget
                (loop hs)
                p
                (scorer h p.tables (suc p.reading))
      makes h hs p missing over = rw (missing, over, in_budget p.reading) refl

      passed :
          (h : ℕ) (hs : List ℕ) (p : Progress) (out : ℕ × Outcome)
          → Completes program r h p.tables out.1
          → ((q : Progress) → q.all_resolved ≡ true → Ends hs q (loop hs q))
          → p.all_resolved ≡ true
          → Ends (h ∷ hs) p (after_pass program scorer r windows now budget (loop hs) p out)
      passed h hs p (reading, scored t') (here, keeps) again clean =
          let (ok_now, kept, rest) =
            again (record p { scored_this_round = true; tables = t'; reading = reading }) clean in
          (ok_now, λ k m. kept k (keeps k m), rw (kept h here) rest)
      passed h hs p (reading, deadline_reached) c again clean = absurd c
      passed h hs p (reading, failed name) c again clean = absurd c

-- Once all the horizons are past due, a tick whose budget does not end and whose passes each write the
-- marker of their horizon, and keep those there are, closes a round that is stored.
pub resolve_due-closes :
    (program : AssessmentRoundProgram) (scorer : Scorer) (r : String) (windows : RoundWindows)
    (now : ℕ) (budget : ResolutionBudget) (s : Storage) (t : ScoreTables) (reading : ℕ)
    {row : RoundRow}
    → ((n : ℕ) → exhausted budget n ≡ false)
    → ((h : ℕ) (t : ScoreTables) (n : ℕ) → Completes program r h t (scorer h t n).1)
    → All (λ h. leb now (horizon_due_at program windows h) ≡ false) program.horizons
    → lookup (r, program.schema_id) s.rounds ≡ some row
    → round_state r program.schema_id
        (resolve_due program scorer r windows now budget s t reading).1
      ≡ some closed
unfolding resolve_due
resolve_due-closes program scorer r windows now budget s t reading {row} in_budget completes due
      there =
    let start : Progress = record {
      all_resolved = true;
      scored_this_round = false;
      last_error = none;
      tables = t;
      reading = reading;
    } in
    let (clean, _, all_marked) =
      pass_over-Ends program scorer r windows now budget in_budget completes program.horizons start
        due refl in
    rw (clean, all_marked) (state-set_round_state r program.schema_id closed now s ∙ rw there refl)
