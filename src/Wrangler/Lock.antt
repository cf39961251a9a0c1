-- ===== src/Wrangler/Lock.antt =====
-- IPAllocateLock, its unlock and IsIPAllocating, one access to shared memory at a time, for threads
-- that run in any order. A subnet is a number; a mutex that is not yet in the map is a free one.
use rancher_flat_network.Prelude.{ℕ, ◌≡◌, Bool, true, false, ◌==◌, if◌then◌else◌}

abbrev pub update {ℓ} : {A : Type ℓ} → (ℕ → A) → ℕ → A → ℕ → A
update f i a j = if i == j then a else f j

-- ipAllocateLockMutex, and by subnet the mutex and the flag of its ipAllocatingMutex.
pub record Locks : Type 0 where
  pub global : Bool
  pub locked : ℕ → Bool
  pub is_locked : ℕ → Bool

-- Where a thread stands.
pub data Pc : Type 0 where
  idle : Pc
  called : ℕ → Pc  -- at the Lock of ipAllocateLockMutex
  loaded : ℕ → Pc  -- has the mutex of the subnet, before isLocked = true
  marked : ℕ → Pc  -- at the Lock of the subnet's mutex
  taken : ℕ → Pc  -- before the deferred Unlock of ipAllocateLockMutex
  inside : ℕ → Pc  -- behind IPAllocateLock, at the Unlock of the subnet's mutex
  released : ℕ → Pc  -- before isLocked = false

pub data Move (m : Locks) : Pc → Locks → Pc → Type 0 where
  call : {s : ℕ} → Move m idle m (called s)
  load : {s : ℕ} → m.global ≡ false → Move m (called s) (record m { global = true }) (loaded s)
  mark : {s : ℕ} → Move m (loaded s) (record m { is_locked = update m.is_locked s true }) (marked s)
  take :
      {s : ℕ}
      → m.locked s ≡ false
      → Move m (marked s) (record m { locked = update m.locked s true }) (taken s)
  return : {s : ℕ} → Move m (taken s) (record m { global = false }) (inside s)
  release : {s : ℕ} → Move m (inside s) (record m { locked = update m.locked s false }) (released s)
  clear : {s : ℕ} → Move m (released s) (record m { is_locked = update m.is_locked s false }) idle

pub record System : Type 0 where
  pub locks : Locks
  pub pc : ℕ → Pc

pub data Step (s : System) : System → Type 0 where
  pick :
      (i : ℕ) {m : Locks} {p : Pc}
      → Move s.locks (s.pc i) m p
      → Step s (record { locks = m; pc = update s.pc i p })

abbrev pub initial : System
initial = record {
  locks = record { global = false; locked = λ s. false; is_locked = λ s. false };
  pc = λ i. idle;
}

pub data Reach : System → Type 0 where
  start : Reach initial
  later : {s t : System} → Reach s → Step s t → Reach t

-- IsIPAllocating
unfoldable pub is_ip_allocating : System → ℕ → Bool
is_ip_allocating s subnet = s.locks.is_locked subnet
