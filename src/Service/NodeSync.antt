-- ===== src/Service/NodeSync.antt =====
-- Calls of `AttachBlockStorage` and `DetachBlockStorage` that run at the same time: their steps on
-- `nodeSync` and its mutexes (internal/service/upcloud_service.go,
-- internal/service/upcloud_block_storage.go). The calls of the API client, between the lock and
-- the unlock, touch neither.
pub mod Exclusion
use upcloud_csi.Base.{
  ℕ, suc, ◌≡◌, Bool, true, false, Option, none, some, String, str_eq, ◌==◌, if◌then◌else◌,
}

-- Where a call is: before `LoadOrStore`, at `mutex.Lock()`, under the mutex, after `Unlock`.
pub data Phase : Type 0 where
  start : Phase
  waiting : ℕ → Phase
  inside : ℕ → Phase
  done : Phase

-- The map from servers to mutexes, which are numbered as they are made; which of them are locked;
-- and where each call is.
pub record NodeSync : Type 0 where
  pub mutexes : String → Option ℕ
  pub fresh : ℕ
  pub locked : ℕ → Bool
  pub phase : ℕ → Phase

abbrev pub set {ℓ} : {A : Type ℓ} → ℕ → A → (ℕ → A) → ℕ → A
set i a f j = if j == i then a else f j

-- The mutex that `LoadOrStore` gives: the one of the server, or the one that was made for the call.
abbrev pub mutex_of : String → NodeSync → ℕ
mutex_of k s = elim (s.mutexes k) [ none ↦ s.fresh | some m ↦ m ]

-- The map after `LoadOrStore`.
unfoldable pub load_or_store : String → NodeSync → String → Option ℕ
load_or_store k s k' = if str_eq k' k then some (mutex_of k s) else s.mutexes k'

-- The steps of a call for a server.
unfoldable pub load : String → ℕ → NodeSync → NodeSync
unfolding load_or_store
load k i s = record s {
  mutexes = load_or_store k s;
  fresh = suc s.fresh;
  phase = set i (waiting (mutex_of k s)) s.phase;
}

unfoldable pub take_mutex : ℕ → ℕ → NodeSync → NodeSync
take_mutex i m s = record s { locked = set m true s.locked; phase = set i (inside m) s.phase }

unfoldable pub give_back : ℕ → ℕ → NodeSync → NodeSync
give_back i m s = record s { locked = set m false s.locked; phase = set i done s.phase }

-- One step of some call `i`, for the server `server i`. A mutex that is locked is waited for.
pub data Step (server : ℕ → String) (s t : NodeSync) : Type 0 where
  loads : (i : ℕ) → s.phase i ≡ start → t ≡ load (server i) i s → Step server s t
  locks :
      (i m : ℕ)
      → s.phase i ≡ waiting m
      → s.locked m ≡ false
      → t ≡ take_mutex i m s
      → Step server s t
  unlocks : (i m : ℕ) → s.phase i ≡ inside m → t ≡ give_back i m s → Step server s t

-- Any number of steps, of any calls, in any order.
pub data Reach (server : ℕ → String) (s : NodeSync) : NodeSync → Type 0 where
  here : Reach server s s
  after : {t u : NodeSync} → Reach server s t → Step server t u → Reach server s u

-- A service that was made by `NewUpCloudService`, before its first call.
abbrev pub new_node_sync : NodeSync
new_node_sync = record { mutexes = λ k. none; fresh = 0; locked = λ m. false; phase = λ i. start }
