-- ===== src/Scoring/Eligibility/Generations.antt =====
-- What the tracker of endure/scoring/eligibility.py counts, generation by generation.
use endure_subnet.Prelude.{
  ℕ, ◌+◌, String, Bool, true, false, ◌&&◌, ◌||◌, not, ◌≡◌, refl, none, some, List, [], ◌∷◌, ◌++◌,
  leb, or_else, is_some, if◌then◌else◌, arith, length, All,
}
use endure_subnet.Prelude.Eq.{string_eq}
use endure_subnet.Prelude.Dict.{Dict, lookup, insert, lookup-insert}
use endure_subnet.Prelude.Sets.{
  mem, filter, keys, IsDistinct, mem-append, mem-filter, mem-unique, unique-IsDistinct, mem-sorted,
  mem-keys, lookup-erase_all,
}
use endure_subnet.Scoring.Eligibility.{
  DeregistrationTracker, seed, gone, count_missing, advance, missed, confirmed, forget_settled,
  deregistration_confirmation_syncs,
}

lookup-count_missing :
    (h : String) (hotkeys : List String) (counts : Dict String ℕ)
    → IsDistinct hotkeys
    → lookup h (count_missing hotkeys counts)
      ≡ (if mem h hotkeys then some (or_else (lookup h counts) 0 + 1) else lookup h counts)
unfolding count_missing
lookup-count_missing h [] counts d = refl
lookup-count_missing h (k ∷ ks) counts (apart, d) = ground (
  arith,
  string_eq.eqb_iff k h,
  lookup-count_missing h ks (insert k (or_else (lookup k counts) 0 + 1) counts) d,
  lookup-insert k h (or_else (lookup k counts) 0 + 1) counts,
)

abbrev pub is_tracked : DeregistrationTracker → String → Bool
is_tracked tracker h = is_some (lookup h tracker.missing_counts) || mem h tracker.last_registered

mem-gone :
    (h : String) (tracker : DeregistrationTracker) (registered : List String)
    → mem h (gone tracker registered) ≡ (is_tracked tracker h && not (mem h registered))
mem-gone h tracker registered = ground (
  arith,
  mem-unique h (
      filter (λ k. not (mem k registered))
        (keys tracker.missing_counts ++ tracker.last_registered)),
  mem-filter (λ k. not (mem k registered)) h
      (keys tracker.missing_counts ++ tracker.last_registered),
  mem-append h (keys tracker.missing_counts) tracker.last_registered,
  mem-keys h tracker.missing_counts,
)

-- One generation, hotkey by hotkey: who is registered is not counted, who was tracked and is absent
-- is counted once more, and nobody else is.
pub lookup-advance :
    (tracker : DeregistrationTracker) (registered : List String) (h : String)
    → lookup h (advance tracker registered).missing_counts ≡ (
        if mem h registered
        then none
        else if is_tracked tracker h
        then some (missed tracker h + 1)
        else none)
unfolding advance
lookup-advance tracker registered h = ground (
  arith,
  lookup-erase_all h registered (count_missing (gone tracker registered) tracker.missing_counts),
  lookup-count_missing h (gone tracker registered) tracker.missing_counts (
      unique-IsDistinct (
        filter (λ k. not (mem k registered))
          (keys tracker.missing_counts ++ tracker.last_registered))),
  mem-gone h tracker registered,
)

-- Generations in the order in which they come
abbrev pub advance_all : DeregistrationTracker → List (List String) → DeregistrationTracker
advance_all tracker [] = tracker
advance_all tracker (g ∷ gs) = advance_all (advance tracker g) gs

abbrev pub Absent : String → List (List String) → Type 0
Absent h = All (λ g. mem h g ≡ false)

mem-confirmed :
    (tracker : DeregistrationTracker) (h : String)
    → mem h (confirmed tracker) ≡ leb deregistration_confirmation_syncs (missed tracker h)
unfolding confirmed
mem-confirmed tracker h = ground (
  arith,
  mem-sorted h (
      filter (λ k. leb deregistration_confirmation_syncs (missed tracker k))
        (keys tracker.missing_counts)),
  mem-filter (λ k. leb deregistration_confirmation_syncs (missed tracker k)) h
      (keys tracker.missing_counts),
  mem-keys h tracker.missing_counts,
)

missed-advance_all :
    (tracker : DeregistrationTracker) (h : String) (gs : List (List String))
    → is_tracked tracker h ≡ true
    → Absent h gs
    → missed (advance_all tracker gs) h ≡ missed tracker h + length gs
missed-advance_all tracker h [] t a = omega arith
missed-advance_all tracker h (g ∷ gs) t (absent, a) =
    ground
      (arith, lookup-advance tracker g h, missed-advance_all (advance tracker g) h gs, t, absent, a)

-- A hotkey that one generation has and those after it lack is confirmed as deregistered exactly
-- when there are at least two of them, whatever was counted before.
pub confirmed_after :
    (tracker : DeregistrationTracker) (h : String) (last : List String) (gs : List (List String))
    → mem h last ≡ true
    → Absent h gs
    → mem h (confirmed (advance_all (advance tracker last) gs)) ≡ leb 2 (length gs)
unfolding advance
confirmed_after tracker h last gs present absent = ground (
  arith,
  mem-confirmed (advance_all (advance tracker last) gs) h,
  missed-advance_all (advance tracker last) h gs,
  lookup-advance tracker last h,
  present,
  absent,
)

-- The same of a hotkey that has stored scores when the tracker is seeded, registered or not.
pub confirmed_after_seed :
    (registered persisted : List String) (h : String) (gs : List (List String))
    → mem h registered || mem h persisted ≡ true
    → Absent h gs
    → mem h (confirmed (advance_all (seed registered persisted) gs)) ≡ leb 2 (length gs)
unfolding seed lookup
confirmed_after_seed registered persisted h gs known absent = ground (
  arith,
  mem-confirmed (advance_all (seed registered persisted) gs) h,
  missed-advance_all (seed registered persisted) h gs,
  mem-append h registered persisted,
  known,
  absent,
)

-- `forget_settled` drops the hotkeys that are confirmed, have no active scores and no unfinished
-- submission, and keeps the count of every other.
pub lookup-forget_settled :
    (tracker : DeregistrationTracker) (active : List String) (unfinished : String → Bool)
    (h : String)
    → lookup h (forget_settled tracker active unfinished).missing_counts ≡ (
        if mem h (confirmed tracker) && (not (mem h active) && not (unfinished h))
        then none
        else lookup h tracker.missing_counts)
unfolding forget_settled
lookup-forget_settled tracker active unfinished h = ground (
  arith,
  lookup-erase_all h (filter (λ k. not (mem k active) && not (unfinished k)) (confirmed tracker))
      tracker.missing_counts,
  mem-filter (λ k. not (mem k active) && not (unfinished k)) h (confirmed tracker),
)
