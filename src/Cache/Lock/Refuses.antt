-- ===== src/Cache/Lock/Refuses.antt =====
-- src/cache.c: what `hm_cache_lock` does when it cannot have the lock, and the descriptors that it
-- leaves open.
use hacman.Cache.Lock.Ancestors.{nth_parent, is_ancestor_iff}
use hacman.Cache.Lock.{
  lock_path, depth_max, is_ancestor, parent_pid, LockCalls, taken, busy, broken, opened, denied,
  no_entry, LockAction, opening, trying, probing, waiting, closing, Wait, interrupted, refused,
  granted, held_by_ancestor, wait_loop, contend, take_lock, Opened, open_lock, lock,
}
use hacman.Cache.Record.{Cache}
use hacman.Base.{
  ℕ, suc, ◌-◌, ◌<◌, Bool, true, false, some, List, [], ◌∷◌, ◌≡◌, refl, inl, inr, Option-cases, All,
  Bytes, pos, Rc, success, failure,
}

abbrev is_waiting : LockAction → Bool
is_waiting waiting = true
is_waiting _ = false

-- No call that blocks.
abbrev pub NeverWaits : List LockAction → Type 0
NeverWaits actions = All (λ a. is_waiting a ≡ false) actions

held_by_ancestor-some :
    (k : LockCalls) (holder : ℕ)
    → k.probe ≡ some holder
    → is_ancestor (parent_pid k.proc) k.ppid holder ≡ true
    → held_by_ancestor k ≡ some holder
unfolding held_by_ancestor
held_by_ancestor-some k holder e a = rw (e, held_by_ancestor, a) refl

take_lock_refused :
    (k : LockCalls) (holder : ℕ)
    → k.set_lock ≡ busy
    → held_by_ancestor k ≡ some holder
    → take_lock k ≡ (trying ∷ probing ∷ closing ∷ [], failure)
unfolding take_lock contend
take_lock_refused k holder b h = rw (b, take_lock, contend, h) refl

open_lock-NeverWaits :
    (o : Opened) (again : Bool) (path : Bytes) (dirs : List Bytes) (taking : List LockAction × Rc)
    → NeverWaits taking.0
    → taking.1 ≡ failure
    → NeverWaits (open_lock o again path dirs taking).0
      × ((open_lock o again path dirs taking).1 ≡ failure)
unfolding open_lock
open_lock-NeverWaits opened again path dirs taking w f = ((refl, w), f)
open_lock-NeverWaits denied again path dirs taking w f = ((refl, tt), refl)
open_lock-NeverWaits no_entry true path dirs taking w f = ((refl, (refl, (refl, w))), f)
open_lock-NeverWaits no_entry false path dirs taking w f = ((refl, (refl, (refl, tt))), refl)

-- A run that is started by the setup that holds the lock does not wait for it: when the lock is
-- busy and its holder is among the first 256 processes above this one, `hm_cache_lock` returns -1
-- without a blocking call, whatever the answers.
pub lock-NeverWaits :
    (k : LockCalls) (c : Cache) (holder n : ℕ)
    → k.set_lock ≡ busy
    → k.probe ≡ some holder
    → 0 < holder
    → n < depth_max
    → nth_parent (parent_pid k.proc) k.ppid n ≡ pos holder
    → NeverWaits (lock k c).0 × ((lock k c).1 ≡ failure)
unfolding lock
lock-NeverWaits k c holder n b p h l e =
    let a = (is_ancestor_iff (parent_pid k.proc) k.ppid holder h).1 (n, l, e) in
    let t = take_lock_refused k holder b (held_by_ancestor-some k holder p a) in
    open_lock-NeverWaits k.first_open k.second_open _ _ (take_lock k)
      (rw t (refl, (refl, (refl, tt)))) (rw t refl)

-- Descriptors that are open after the calls, of `n` before.
unfoldable pub descriptors : List LockAction → ℕ → ℕ
descriptors [] n = n
descriptors (opening path true ∷ more) n = descriptors more (suc n)
descriptors (closing ∷ more) n = descriptors more (n - 1)
descriptors (_ ∷ more) n = descriptors more n

abbrev pub returned : Rc → ℕ
returned success = 1
returned failure = 0

wait_loop-descriptors : (w : List Wait) → descriptors (wait_loop w).0 1 ≡ returned (wait_loop w).1
unfolding wait_loop descriptors
wait_loop-descriptors [] = refl
wait_loop-descriptors (interrupted ∷ more) = wait_loop-descriptors more
wait_loop-descriptors (refused ∷ more) = refl
wait_loop-descriptors (granted ∷ more) = refl

contend-descriptors : (k : LockCalls) → descriptors (contend k).0 1 ≡ returned (contend k).1
unfolding contend descriptors
contend-descriptors k = elim (Option-cases (held_by_ancestor k)) [
  | inl e ↦ rw (e, contend, descriptors) (wait_loop-descriptors k.waits)
  | inr (holder, e) ↦ rw (e, contend, descriptors) refl
]

take_lock-descriptors : (k : LockCalls) → descriptors (take_lock k).0 1 ≡ returned (take_lock k).1
unfolding take_lock descriptors
take_lock-descriptors k =
    elim k.set_lock
        as (λ s. k.set_lock ≡ s → descriptors (take_lock k).0 1 ≡ returned (take_lock k).1) [
          | taken ↦ λ e. rw (e, take_lock, descriptors) refl
          | busy ↦ λ e. rw (e, take_lock, descriptors) (contend-descriptors k)
          | broken ↦ λ e. rw (e, take_lock, descriptors) (wait_loop-descriptors k.waits)
        ]
      refl

open_lock-descriptors :
    (o : Opened) (again : Bool) (path : Bytes) (dirs : List Bytes) (taking : List LockAction × Rc)
    → descriptors taking.0 1 ≡ returned taking.1
    → descriptors (open_lock o again path dirs taking).0 0
      ≡ returned (open_lock o again path dirs taking).1
unfolding open_lock descriptors
open_lock-descriptors opened again path dirs taking h = h
open_lock-descriptors denied again path dirs taking h = refl
open_lock-descriptors no_entry true path dirs taking h = h
open_lock-descriptors no_entry false path dirs taking h = refl

-- Whatever the kernel answers, `hm_cache_lock` leaves one descriptor open when it succeeds, the one
-- that it returns, and none when it fails.
pub lock-descriptors :
    (k : LockCalls) (c : Cache) → descriptors (lock k c).0 0 ≡ returned (lock k c).1
unfolding lock
lock-descriptors k c =
    open_lock-descriptors k.first_open k.second_open (lock_path c) _ (take_lock k)
      (take_lock-descriptors k)
