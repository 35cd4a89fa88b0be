-- ===== src/Service/NodeSync/Exclusion.antt =====
-- The mutex of a server keeps the calls of that server apart (internal/service/upcloud_service.go).
use upcloud_csi.Base.{
  ℕ, ◌<◌, ◌≡◌, ◌≢◌, refl, sym, ap, subst, ◌∙◌, arith, true, false, some, String, str_eq, ◌==◌,
  Bool-cases, Option-cases, ◌⊎◌, inl, inr, eq_iff, eq_refl,
}
use upcloud_csi.Service.NodeSync.{
  Phase, start, waiting, inside, done, NodeSync, mutex_of, load_or_store, load, take_mutex,
  give_back, Step, loads, locks, unlocks, Reach, here, after, new_node_sync,
}

-- Each call waits for, or holds, the mutex that the map has for its server; no two servers have the
-- same one; a mutex is locked if, and only if, some call holds it, and then one call alone does.
pub record IsConsistent (server : ℕ → String) (s : NodeSync) : Type 0 where
  pub waits : (i m : ℕ) → s.phase i ≡ waiting m → s.mutexes (server i) ≡ some m
  pub holds : (i m : ℕ) → s.phase i ≡ inside m → s.mutexes (server i) ≡ some m
  pub made : (k : String) (m : ℕ) → s.mutexes k ≡ some m → m < s.fresh
  pub distinct : (k k' : String) (m : ℕ) → s.mutexes k ≡ some m → s.mutexes k' ≡ some m → k ≡ k'
  pub is_locked : (i m : ℕ) → s.phase i ≡ inside m → s.locked m ≡ true
  pub owner : (m : ℕ) → s.locked m ≡ true → (i : ℕ) × (s.phase i ≡ inside m)
  pub single : (i j m : ℕ) → s.phase i ≡ inside m → s.phase j ≡ inside m → i ≡ j

-- A mutex in the map was there before, or is the one that was made for the call.
origin :
    (k k' : String) (s : NodeSync) (m : ℕ)
    → load_or_store k s k' ≡ some m
    → (s.mutexes k' ≡ some m) ⊎ ((k' ≡ k) × (m ≡ s.fresh))
unfolding load_or_store
origin k k' s m e = elim (Bool-cases (str_eq k' k)) [
  | inr other ↦ inl (rw other at e)
  | inl same ↦
      let k-eq : k' ≡ k = (eq_iff k' k).0 same in
      elim (Option-cases (s.mutexes k)) [
        | inl none' ↦ inr (k-eq, ground (arith, same, none', e))
        | inr (n, there) ↦ inl (ap s.mutexes k-eq ∙ there ∙ ground (arith, same, there, e))
      ]
]

-- A mutex that is in the map stays there.
kept :
    (k k' : String) (s : NodeSync) (m : ℕ) → s.mutexes k' ≡ some m → load_or_store k s k' ≡ some m
unfolding load_or_store
kept k k' s m e = elim (Bool-cases (str_eq k' k)) [
  | inr other ↦ rw (other, e)
  | inl same ↦
      let there : s.mutexes k ≡ some m = sym (ap s.mutexes ((eq_iff k' k).0 same)) ∙ e in
      ground (arith, same, there)
]

-- The call finds its own mutex in the map.
stored : (k : String) (s : NodeSync) → load_or_store k s k ≡ some (mutex_of k s)
unfolding load_or_store
stored k s = rw (eq_refl k)

-- A call that waits after the step was waiting before, or has made the step.
waits_since :
    (k : String) (i j n : ℕ) (s : NodeSync)
    → (load k i s).phase j ≡ waiting n
    → (s.phase j ≡ waiting n) ⊎ ((j ≡ i) × (mutex_of k s ≡ n))
unfolding load
waits_since k i j n s e = elim (Bool-cases (j == i)) [
  | inl same ↦ inr (ground (arith, same), ground (arith, same, e))
  | inr other ↦ inl (ground (arith, other, e))
]

module _ (server : ℕ → String) where
  new_node_sync-IsConsistent : IsConsistent server new_node_sync
  new_node_sync-IsConsistent = record {
    waits = λ i m e. absurd (cc e);
    holds = λ i m e. absurd (cc e);
    made = λ k m e. absurd (cc e);
    distinct = λ k k' m e f. absurd (cc e);
    is_locked = λ i m e. absurd (cc e);
    owner = λ m e. absurd (cc e);
    single = λ i j m e f. absurd (cc e);
  }

  take_mutex-IsConsistent :
      (i m : ℕ) (s : NodeSync)
      → s.phase i ≡ waiting m
      → s.locked m ≡ false
      → IsConsistent server s
      → IsConsistent server (take_mutex i m s)
  unfolding take_mutex
  take_mutex-IsConsistent i m s at free is = record {
    waits = λ j n e. ground (arith, is.waits j n);
    holds = λ j n e. ground (arith, at, is.holds j n, is.waits j n);
    made = is.made;
    distinct = is.distinct;
    is_locked = λ j n e. ground (arith, is.is_locked j n);
    owner = λ n e. elim (Bool-cases (n == m)) [
      | inl same ↦ (i, ground (arith, same))
      | inr other ↦ let (j, f) = is.owner n (ground (arith, other, e)) in (j, ground (arith, f, at))
    ];
    single = λ j j' n e f. ground (arith, is.is_locked j n, is.is_locked j' n, is.single j j' n);
  }

  give_back-IsConsistent :
      (i m : ℕ) (s : NodeSync)
      → s.phase i ≡ inside m
      → IsConsistent server s
      → IsConsistent server (give_back i m s)
  unfolding give_back
  give_back-IsConsistent i m s at is = record {
    waits = λ j n e. ground (arith, is.waits j n);
    holds = λ j n e. ground (arith, is.holds j n);
    made = is.made;
    distinct = is.distinct;
    is_locked = λ j n e. ground (arith, at, is.is_locked j n, is.single j i m);
    owner = λ n e. let (j, f) = is.owner n (ground (arith, e)) in (j, ground (arith, f, at, e));
    single = λ j j' n e f. ground (arith, is.single j j' n);
  }

  same_server :
      (i : ℕ) (s : NodeSync)
      → IsConsistent server s
      → (k k' : String) (m : ℕ) → (s.mutexes k ≡ some m) ⊎ ((k ≡ server i) × (m ≡ s.fresh))
      → (s.mutexes k' ≡ some m) ⊎ ((k' ≡ server i) × (m ≡ s.fresh))
      → k ≡ k'
  same_server i s is k k' m (inl a) (inl b) = is.distinct k k' m a b
  same_server i s is k k' m (inl a) (inr (b, new')) =
      let small = is.made k m a in absurd (omega arith)
  same_server i s is k k' m (inr (a, new')) (inl b) =
      let small = is.made k' m b in absurd (omega arith)
  same_server i s is k k' m (inr (a, _)) (inr (b, _)) = a ∙ sym b

  load-IsConsistent :
      (i : ℕ) (s : NodeSync)
      → s.phase i ≡ start
      → IsConsistent server s
      → IsConsistent server (load (server i) i s)
  unfolding load load_or_store
  load-IsConsistent i s at is = record {
    waits = λ j n e. elim (waits_since (server i) i j n s e) [
      | inl before ↦ kept (server i) (server j) s n (is.waits j n before)
      | inr (same, mine) ↦
          subst (λ z. load_or_store (server i) s (server z) ≡ some n) (sym same)
            (stored (server i) s ∙ ap some mine)
    ];
    holds = λ j n e. kept (server i) (server j) s n (is.holds j n (ground (arith, e, at)));
    made = λ k n e. elim (origin (server i) k s n e) [
      | inl before ↦ let small = is.made k n before in omega arith
      | inr (_, new') ↦ omega arith
    ];
    distinct = λ k k' n e f.
        same_server i s is k k' n (origin (server i) k s n e) (origin (server i) k' s n f);
    is_locked = λ j n e. ground (arith, is.is_locked j n);
    owner = λ n e. let (j, f) = is.owner n e in (j, ground (arith, f, at));
    single = λ j j' n e f. ground (arith, is.single j j' n);
  }

  Step-IsConsistent :
      {s t : NodeSync} → Step server s t → IsConsistent server s → IsConsistent server t
  Step-IsConsistent (loads i at e) is =
      subst (IsConsistent server) (sym e) (load-IsConsistent i _ at is)
  Step-IsConsistent (locks i m at free e) is =
      subst (IsConsistent server) (sym e) (take_mutex-IsConsistent i m _ at free is)
  Step-IsConsistent (unlocks i m at e) is =
      subst (IsConsistent server) (sym e) (give_back-IsConsistent i m _ at is)

  pub Reach-IsConsistent : {s : NodeSync} → Reach server new_node_sync s → IsConsistent server s
  Reach-IsConsistent here = new_node_sync-IsConsistent
  Reach-IsConsistent (after r st) = Step-IsConsistent st (Reach-IsConsistent r)

  -- However the calls interleave, two calls that hold a mutex for the same server are the same call: at
  -- most one attach or detach runs against a server at a time.
  pub mutual_exclusion :
      (s : NodeSync) (i j m n : ℕ)
      → Reach server new_node_sync s
      → s.phase i ≡ inside m
      → s.phase j ≡ inside n
      → server i ≡ server j
      → i ≡ j
  mutual_exclusion s i j m n r a b e =
      let is = Reach-IsConsistent r in
      let same : some m ≡ some n = sym (is.holds i m a) ∙ ap s.mutexes e ∙ is.holds j n b in
      is.single i j m a (b ∙ ap inside (ground (arith, same)))

  -- A call that can go on, or waits for one of its own server that can.
  abbrev pub GoesOn : NodeSync → ℕ → Type 0
  GoesOn s i =
      ((m : ℕ) × (s.phase i ≡ waiting m)
        × (j : ℕ) × (s.phase j ≡ inside m)
        × (server j ≡ server i)
        × Step server s (give_back j m s))
      ⊎ ((t : NodeSync) × Step server s t × (t.phase i ≢ s.phase i))

  goes_on :
      (s : NodeSync) (i : ℕ)
      → IsConsistent server s
      → s.phase i ≢ done
      → (p : Phase) → s.phase i ≡ p
      → GoesOn s i
  unfolding load take_mutex give_back
  goes_on s i is busy done at = absurd (busy at)
  goes_on s i is busy start at =
      inr (load (server i) i s, loads i at refl, λ e. ground (arith, e, at))
  goes_on s i is busy (inside m) at =
      inr (give_back i m s, unlocks i m at refl, λ e. ground (arith, e, at))
  goes_on s i is busy (waiting m) at = elim (Bool-cases (s.locked m)) [
    | inr free ↦ inr (take_mutex i m s, locks i m at free refl, λ e. ground (arith, e, at))
    | inl taken ↦
        let (j, f) = is.owner m taken in
        inl (
          m,
          at,
          j,
          f,
          is.distinct (server j) (server i) m (is.holds j m f) (is.waits i m at),
          unlocks j m f refl,
        )
  ]

  -- However the calls interleave, in every state that they reach a call that is not done has a step of
  -- its own, or it waits for the mutex of its server, which a call of the same server holds that has
  -- the step that gives it back. So no call waits for one of another server, and there is no state in
  -- which calls wait and none has a step. Which of the calls that wait is next is not said.
  pub no_deadlock :
      (s : NodeSync) (i : ℕ) → Reach server new_node_sync s → s.phase i ≢ done → GoesOn s i
  no_deadlock s i r busy = goes_on s i (Reach-IsConsistent r) busy (s.phase i) refl
