-- ===== src/Scoring/Eligibility.antt =====
-- endure/scoring/eligibility.py: the confirmation that a hotkey has left the subnet, over
-- generations of the metagraph. A set is a list; the order of a loop over a set does not matter.
pub mod Generations
use endure_subnet.Prelude.{ℕ, ◌+◌, String, Bool, ◌&&◌, not, List, [], ◌∷◌, ◌++◌, leb, or_else}
use endure_subnet.Prelude.Eq.{string_eq}
use endure_subnet.Prelude.Dict.{Dict, lookup, insert}
use endure_subnet.Prelude.Sets.{mem, filter, unique, keys, sorted, erase_all}

abbrev pub deregistration_confirmation_syncs : ℕ
deregistration_confirmation_syncs = 2

pub record DeregistrationTracker : Type 0 where
  pub missing_counts : Dict String ℕ
  pub last_registered : List String

unfoldable pub seed : List String → List String → DeregistrationTracker
seed registered persisted = record {
  missing_counts = [];
  last_registered = registered ++ persisted;
}

-- The hotkeys that the first loop of `advance` counts
abbrev pub gone : DeregistrationTracker → List String → List String
gone tracker registered = unique (
    filter (λ hotkey. not (mem hotkey registered))
      (keys tracker.missing_counts ++ tracker.last_registered))

unfoldable pub count_missing : List String → Dict String ℕ → Dict String ℕ
count_missing [] counts = counts
count_missing (hotkey ∷ hotkeys) counts =
    count_missing hotkeys (insert hotkey (or_else (lookup hotkey counts) 0 + 1) counts)

unfoldable pub advance : DeregistrationTracker → List String → DeregistrationTracker
unfolding count_missing
advance tracker registered = record {
  missing_counts =
      erase_all registered (count_missing (gone tracker registered) tracker.missing_counts);
  last_registered = registered;
}

abbrev pub missed : DeregistrationTracker → String → ℕ
missed tracker hotkey = or_else (lookup hotkey tracker.missing_counts) 0

unfoldable pub confirmed : DeregistrationTracker → List String
confirmed tracker = sorted (
    filter (λ hotkey. leb deregistration_confirmation_syncs (missed tracker hotkey))
      (keys tracker.missing_counts))

unfoldable pub forget_settled :
    DeregistrationTracker → List String → (String → Bool) → DeregistrationTracker
unfolding confirmed
forget_settled tracker active_hotkeys has_unfinished_submission = record tracker {
  missing_counts =
      erase_all
        (filter
          (λ hotkey. not (mem hotkey active_hotkeys) && not (has_unfinished_submission hotkey))
          (confirmed tracker))
        tracker.missing_counts;
}

pub record ScoringSet : Type 0 where
  pub expected_miners : List String
  pub archive_hotkeys : List String

unfoldable pub scoring_set : List String → DeregistrationTracker → ScoringSet
scoring_set registered_hotkeys tracker = record {
  expected_miners = registered_hotkeys;
  archive_hotkeys = confirmed tracker;
}
