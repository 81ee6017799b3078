-- ===== src/Health.antt =====
-- src/server/health.rs: the readiness probe and the indexer's status. An age is an `i64`; the percentage
-- of the backfill is an `f32`, whose arithmetic is a parameter.
pub mod Ready
pub mod Status
use allfeat_explorer.Common.{
  ℕ, suc, ◌+◌, ◌-◌, ◌^◌, Bool, true, false, not, Option, none, some, List, [], ◌∷◌, ◌++◌, Bytes,
  codes, Result, ok, err, ltb, ◌==◌, if◌then◌else◌, min,
}
use allfeat_explorer.Common.Integers.{ℤ, pos, negsuc, lt_int}
use allfeat_explorer.Common.Maps.{HashMap}
use allfeat_explorer.Decimal.{display, u64_max}
use allfeat_explorer.Errors.{DataError}

abbrev pub ready_max_lag_seconds : ℤ
ready_max_lag_seconds = pos 30

pub data ReadyVerdict : Type 0 where
  verdict_ok backend_not_ready db_unreachable : ReadyVerdict
  cursor_stale : ℤ → ReadyVerdict

-- The check of the age, for a backend that is ready and a database that answers.
abbrev pub age_verdict : Option ℤ → ℤ → ReadyVerdict
age_verdict none max_lag_seconds = verdict_ok
age_verdict (some age) max_lag_seconds =
    if lt_int max_lag_seconds age then cursor_stale age else verdict_ok

unfoldable pub ready_verdict : Bool → Option ℤ → Bool → ℤ → ReadyVerdict
ready_verdict backend_ready cursor_age db_error max_lag_seconds =
    if not backend_ready
    then backend_not_ready
    else if db_error
    then db_unreachable
    else age_verdict cursor_age max_lag_seconds

abbrev pub max_int : ℤ → ℤ → ℤ
max_int a b = if lt_int a b then b else a

abbrev pub worst_of : Option ℤ → ℤ → Option ℤ
worst_of none age = some age
worst_of (some prev) age = some (max_int prev age)

-- What the loop over the networks has seen.
pub record Seen : Type 0 where
  pub worst_age : Option ℤ
  pub saw_error : Bool

abbrev pub note_age : Result DataError (Option ℤ) → Seen → Seen
note_age (ok (some age)) seen = record seen { worst_age = worst_of seen.worst_age age }
note_age (ok none) seen = seen
note_age (err e) seen = record seen { saw_error = true }

-- The network of an id without a number is passed over.
abbrev pub note_network : (ℕ → Result DataError (Option ℤ)) → Option ℕ → Seen → Seen
note_network cursor_age none seen = seen
note_network cursor_age (some sid) seen = note_age (cursor_age sid) seen

unfoldable pub fold_ages :
    (ℕ → Result DataError (Option ℤ)) → HashMap Bytes ℕ → List Bytes → Seen → Seen
fold_ages cursor_age lookup [] seen = seen
fold_ages cursor_age lookup (id ∷ ids) seen =
    fold_ages cursor_age lookup ids (note_network cursor_age (lookup id) seen)

-- The parts of the state that the probes read: the pool is the age of the live cursor of each network.
pub record AppState : Type 0 where
  pub is_ready : Bool
  pub db_pool : Option (ℕ → Result DataError (Option ℤ))
  pub network_lookup : Option (HashMap Bytes ℕ)
  pub indexed_network_ids : List Bytes

abbrev pub nothing_seen : Seen
nothing_seen = record { worst_age = none; saw_error = false }

unfoldable pub ages_of :
    Option (ℕ → Result DataError (Option ℤ)) → Option (HashMap Bytes ℕ) → List Bytes → Seen
unfolding fold_ages
ages_of (some pool) (some lookup) ids = fold_ages pool lookup ids nothing_seen
ages_of (some pool) none ids = nothing_seen
ages_of none lookup ids = nothing_seen

pub record Response : Type 0 where
  pub status : ℕ
  pub body : Bytes

unfoldable pub display_int : ℤ → Bytes
display_int (pos n) = display n
display_int (negsuc n) = b'-' ∷ display (suc n)

unfoldable pub verdict_response : ReadyVerdict → Response
unfolding display_int
verdict_response verdict_ok = record { status = 200; body = codes "ready" }
verdict_response backend_not_ready = record { status = 503; body = codes "no ready backend" }
verdict_response db_unreachable = record { status = 503; body = codes "indexer db unreachable" }
verdict_response (cursor_stale age) = record {
  status = 503;
  body =
      codes "indexer stale: live cursor age "
      ++ (display_int age ++ (codes "s > " ++ (display_int ready_max_lag_seconds ++ codes "s")));
}

unfoldable pub readyz : AppState → Response
unfolding ready_verdict ages_of verdict_response
readyz state =
    let seen = ages_of state.db_pool state.network_lookup state.indexed_network_ids in
    verdict_response
      (ready_verdict state.is_ready seen.worst_age seen.saw_error ready_max_lag_seconds)

pub data IndexerState : Type 0 where
  healthy catching_up backfilling offline : IndexerState

abbrev pub healthy_lag_blocks : ℕ
healthy_lag_blocks = 2

abbrev pub offline_cursor_age_seconds : ℤ
offline_cursor_age_seconds = pos 60

-- `live_lag_blocks`
abbrev pub lag_of : Option ℕ → Option ℕ → Option ℕ
lag_of none indexer_head = none
lag_of (some f) none = none
lag_of (some f) (some i) = some (f - i)

abbrev pub is_stale : Option ℤ → Bool
is_stale none = false
is_stale (some age) = lt_int offline_cursor_age_seconds age

abbrev pub lags : Option ℕ → Bool
lags none = false
lags (some lag) = ltb healthy_lag_blocks lag

-- What the three reads of a network's pool answer.
pub record Reads : Type 0 where
  pub head : Result DataError (Option ℕ)
  pub age : Result DataError (Option ℤ)
  pub done : Result DataError ℕ

-- `.ok().flatten()`
abbrev pub flattened {ℓ} : {A : Type ℓ} → Result DataError (Option A) → Option A
flattened (ok found) = found
flattened (err e) = none

-- `.unwrap_or(0)`
abbrev pub unwrap_or_zero : Result DataError ℕ → ℕ
unwrap_or_zero (ok n) = n
unwrap_or_zero (err e) = 0

-- The tuple that the pool gives, where there is one.
abbrev pub head_of : Option Reads → Option ℕ
head_of none = none
head_of (some reads) = flattened reads.head

abbrev pub age_of : Option Reads → Option ℤ
age_of none = none
age_of (some reads) = flattened reads.age

abbrev pub done_of : Option Reads → ℕ
done_of none = 0
done_of (some reads) = unwrap_or_zero reads.done

-- `finalized_head.map(|h| h.saturating_add(1)).unwrap_or(0)`
abbrev pub total_of : Option ℕ → ℕ
total_of none = 0
total_of (some h) = min (h + 1) u64_max

module _ (F32 : Type 0) (hundred : F32) (percentage : ℕ → ℕ → F32)
    (below_hundred : F32 → Bool) where
  pub record IndexerStatus : Type 0 where
    pub network_id : Bytes
    pub state : IndexerState
    pub finalized_head : Option ℕ
    pub indexer_head : Option ℕ
    pub live_lag_blocks : Option ℕ
    pub backfill_done : ℕ
    pub backfill_total : ℕ
    pub backfill_pct : F32

  unfoldable pub healthy_stub : Bytes → IndexerStatus
  healthy_stub network_id = record {
    network_id = network_id;
    state = healthy;
    finalized_head = none;
    indexer_head = none;
    live_lag_blocks = none;
    backfill_done = 0;
    backfill_total = 0;
    backfill_pct = hundred;
  }

  unfoldable pub derive_state : Option ℕ → Option ℤ → F32 → IndexerState
  derive_state live_lag_blocks cursor_age_seconds backfill_pct =
      if is_stale cursor_age_seconds
      then offline
      else if below_hundred backfill_pct
      then backfilling
      else if lags live_lag_blocks
      then catching_up
      else healthy

  unfoldable pub compute_status : Bytes → Option ℕ → Option ℕ → Option ℤ → ℕ → ℕ → IndexerStatus
  unfolding derive_state
  compute_status network_id finalized_head indexer_head cursor_age_seconds backfill_done
        backfill_total =
      let live_lag_blocks = lag_of finalized_head indexer_head in
      let backfill_pct =
        if backfill_total == 0 then hundred else percentage backfill_done backfill_total in
      record {
        network_id = network_id;
        state = derive_state live_lag_blocks cursor_age_seconds backfill_pct;
        finalized_head = finalized_head;
        indexer_head = indexer_head;
        live_lag_blocks = live_lag_blocks;
        backfill_done = backfill_done;
        backfill_total = backfill_total;
        backfill_pct = backfill_pct;
      }

  unfoldable pub collect_status_from : Bytes → Option ℕ → Option Reads → IndexerStatus
  unfolding compute_status
  collect_status_from network_id finalized_head pool =
      compute_status network_id finalized_head (head_of pool) (age_of pool) (done_of pool)
        (total_of finalized_head)
