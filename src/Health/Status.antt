-- ===== src/Health/Status.antt =====
-- src/server/health.rs: when the status banner shows a network as offline.
use allfeat_explorer.Common.{
  ℕ, ◌≡◌, ◌⊎◌, ◌↔◌, refl, Bool, true, false, Option, none, some, Bytes, Result, ◌==◌, if◌then◌else◌,
  ok, err, inl, inr, arith,
}
use allfeat_explorer.Common.Integers.{ℤ, lt_int}
use allfeat_explorer.Errors.{DataError}
use allfeat_explorer.Health.{
  Reads, flattened, offline, offline_cursor_age_seconds, is_stale, lag_of, total_of, head_of,
  age_of, done_of, derive_state, compute_status, collect_status_from,
}

-- The age of the live cursor was read, and it is over the limit.
abbrev pub ReadsStale : Option Reads → Type 0
ReadsStale pool =
    (reads : Reads) × (age : ℤ) × (pool ≡ some reads)
    × (reads.age ≡ ok (some age))
    × (lt_int offline_cursor_age_seconds age ≡ true)

-- An answer with an age, or none.
read_age :
    (r : Result DataError (Option ℤ)) → ((age : ℤ) × (r ≡ ok (some age))) ⊎ (flattened r ≡ none)
read_age (ok (some age)) = inl (age, refl)
read_age (ok none) = inr refl
read_age (err e) = inr refl

false-ne-true : false ≡ true → ⊥
false-ne-true h = cc

stale-ReadsStale : (pool : Option Reads) → is_stale (age_of pool) ≡ true → ReadsStale pool
stale-ReadsStale none h = cc
stale-ReadsStale (some reads) h = elim (read_age reads.age) [
  | inl (age, a) ↦ (reads, age, refl, a, rw (a) at h)
  | inr n ↦ absurd (false-ne-true (rw (n) at h))
]

ReadsStale-stale : (pool : Option Reads) → ReadsStale pool → is_stale (age_of pool) ≡ true
ReadsStale-stale pool (reads, age, p, a, h) = rw (p, a) h

module _ (F32 : Type 0) (hundred : F32) (percentage : ℕ → ℕ → F32)
    (below_hundred : F32 → Bool) where
  derive_state-fresh :
      (lag : Option ℕ) (age : Option ℤ) (pct : F32)
      → derive_state F32 hundred percentage below_hundred lag age pct ≡ offline
      → is_stale age ≡ true
  unfolding derive_state
  derive_state-fresh lag age pct h = ground arith

  derive_state-stale :
      (lag : Option ℕ) (age : Option ℤ) (pct : F32)
      → is_stale age ≡ true
      → derive_state F32 hundred percentage below_hundred lag age pct ≡ offline
  unfolding derive_state
  derive_state-stale lag age pct h = ground arith

  -- The banner shows a network as offline exactly when there is a pool, the age of its live cursor was
  -- read from it and that age is over the limit of 60 seconds, whatever the other reads answer. So a
  -- network whose reads fail is never shown as offline.
  pub collect_status_from-offline :
      (network_id : Bytes) (finalized_head : Option ℕ) (pool : Option Reads)
      → ((collect_status_from F32 hundred percentage below_hundred network_id finalized_head
            pool).state
          ≡ offline)
        ↔ ReadsStale pool
  unfolding collect_status_from compute_status
  collect_status_from-offline network_id finalized_head pool =
      let pct =
        if total_of finalized_head == 0
        then hundred
        else percentage (done_of pool) (total_of finalized_head) in
      (
        λ h.
            stale-ReadsStale pool
              (derive_state-fresh (lag_of finalized_head (head_of pool)) (age_of pool) pct h),
        λ s.
            derive_state-stale (lag_of finalized_head (head_of pool)) (age_of pool) pct
              (ReadsStale-stale pool s),
      )
