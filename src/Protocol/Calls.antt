-- ===== src/Protocol/Calls.antt =====
-- Code that makes calls to repository.py, each of them a transaction: before each call, any
-- operations of other callers may run. `others n` are those before call `n` of the run.
use endure_subnet.Prelude.{ℕ, suc, List, [], Bool, true, false, ◌≡◌, refl, if◌then◌else◌}
use endure_subnet.Storage.Tables.{Storage}
use endure_subnet.Storage.Ops.{StorageOp, run}

pub record World : Type 0 where
  pub calls : ℕ
  pub storage : Storage

abbrev pub Others : Type 0
Others = ℕ → List StorageOp

abbrev pub Call : Type 0 → Type 0
Call A = Others → World → A × World

infixl 5 ◌>>=◌
abbrev pub pure : {A : Type 0} → A → Call A
pure a others w = (a, w)

abbrev pub ◌>>=◌ : {A B : Type 0} → Call A → (A → Call B) → Call B
(m >>= f) others w = f (m others w).0 others (m others w).1

abbrev pub after_others : Others → World → Storage
after_others others w = run (others w.calls) w.storage

-- A call whose transaction is `f`.
abbrev pub transact : {A : Type 0} → (Storage → A × Storage) → Call A
transact f others w =
    let r = f (after_others others w) in (r.0, record { calls = suc w.calls; storage = r.1 })

-- A call that only reads.
abbrev pub read : {A : Type 0} → (Storage → A) → Call A
read f = transact (λ s. (f s, s))

-- What a call leaves in the store, whenever its reply passes a test and whoever else writes.
module _ {κ} {A : Type 0} (P : Storage → Type κ) (passes : A → Bool) where
  unfoldable pub Earns : Call A → Type κ
  Earns m = (others : Others) (w : World) → passes (m others w).0 ≡ true → P (m others w).1.storage

  pub pure-Earns : (a : A) → passes a ≡ false → Earns (pure a)
  unfolding Earns
  pure-Earns a e others w t = absurd cc

  pub if_Earns :
      (b : Bool) (m n : Call A)
      → (b ≡ true → Earns m)
      → (b ≡ false → Earns n)
      → Earns (if b then m else n)
  unfolding Earns
  if_Earns true m n p q = p refl
  if_Earns false m n p q = q refl

  pub bind-Earns :
      {B : Type 0} (m : Call B) (f : B → Call A) → ((b : B) → Earns (f b)) → Earns (m >>= f)
  unfolding Earns
  bind-Earns m f p others w = p (m others w).0 others (m others w).1

-- No other caller writes.
abbrev pub quiet : Others
quiet n = []

module _ {κ} {A : Type 0} (Q : A × World → Type κ) where
  -- What holds after either branch of a conditional, from this world
  pub if_at :
      (b : Bool) (m n : Call A) (others : Others) (w : World)
      → (b ≡ true → Q (m others w))
      → (b ≡ false → Q (n others w))
      → Q ((if b then m else n) others w)
  if_at true m n others w p q = p refl
  if_at false m n others w p q = q refl
