-- ===== src/Health/Ready.antt =====
-- src/server/health.rs: when the readiness probe answers 200.
use allfeat_explorer.Common.{
  ℕ, ◌≡◌, refl, ap, ◌∙◌, Bool, true, false, ◌&&◌, not, Option, none, some, List, [], ◌∷◌, Bytes,
  Result, ok, err, arith,
}
use allfeat_explorer.Common.Integers.{ℤ, pos, negsuc, lt_int}
use allfeat_explorer.Common.Maps.{HashMap}
use allfeat_explorer.Errors.{DataError}
use allfeat_explorer.Health.{
  ready_max_lag_seconds, ready_verdict, Seen, note_age, note_network, fold_ages, worst_of, max_int,
  ages_of, nothing_seen, AppState, readyz, verdict_response,
}

-- A network that does not hold the probe back: it has no number, or its cursor is read and is absent or
-- at most thirty seconds old.
abbrev fresh_read : Result DataError (Option ℤ) → Bool
fresh_read (ok (some age)) = not (lt_int ready_max_lag_seconds age)
fresh_read (ok none) = true
fresh_read (err e) = false

abbrev pub is_fresh : (ℕ → Result DataError (Option ℤ)) → Option ℕ → Bool
is_fresh pool none = true
is_fresh pool (some sid) = fresh_read (pool sid)

abbrev fresh_age : Option ℤ → Bool
fresh_age none = true
fresh_age (some age) = not (lt_int ready_max_lag_seconds age)

abbrev fresh_seen : Seen → Bool
fresh_seen seen = not seen.saw_error && fresh_age seen.worst_age

max_int-fresh :
    (a b : ℤ)
    → not (lt_int ready_max_lag_seconds (max_int a b))
      ≡ (not (lt_int ready_max_lag_seconds a) && not (lt_int ready_max_lag_seconds b))
unfolding lt_int
max_int-fresh (pos a) (pos b) = ground arith
max_int-fresh (pos a) (negsuc b) = ground arith
max_int-fresh (negsuc a) (pos b) = ground arith
max_int-fresh (negsuc a) (negsuc b) = ground arith

worst_of-fresh :
    (o : Option ℤ) (age : ℤ)
    → fresh_age (worst_of o age) ≡ (fresh_age o && not (lt_int ready_max_lag_seconds age))
worst_of-fresh none age = refl
worst_of-fresh (some a) age = max_int-fresh a age

note_age-fresh :
    (r : Result DataError (Option ℤ)) (seen : Seen)
    → fresh_seen (note_age r seen) ≡ (fresh_seen seen && fresh_read r)
note_age-fresh (ok (some age)) seen = ground (arith, worst_of-fresh seen.worst_age age)
note_age-fresh (ok none) seen = ground arith
note_age-fresh (err e) seen = ground arith

note_network-fresh :
    (pool : ℕ → Result DataError (Option ℤ)) (o : Option ℕ) (seen : Seen)
    → fresh_seen (note_network pool o seen) ≡ (fresh_seen seen && is_fresh pool o)
note_network-fresh pool none seen = ground arith
note_network-fresh pool (some sid) seen = note_age-fresh (pool sid) seen

-- Every network of a list.
abbrev pub all_fresh : (ℕ → Result DataError (Option ℤ)) → HashMap Bytes ℕ → List Bytes → Bool
all_fresh pool lookup [] = true
all_fresh pool lookup (id ∷ ids) = is_fresh pool (lookup id) && all_fresh pool lookup ids

fold_ages-fresh :
    (pool : ℕ → Result DataError (Option ℤ)) (lookup : HashMap Bytes ℕ) (ids : List Bytes)
    (seen : Seen)
    → fresh_seen (fold_ages pool lookup ids seen) ≡ (fresh_seen seen && all_fresh pool lookup ids)
unfolding fold_ages
fold_ages-fresh pool lookup [] seen = ground arith
fold_ages-fresh pool lookup (id ∷ ids) seen =
    fold_ages-fresh pool lookup ids (note_network pool (lookup id) seen)
    ∙ ground (arith, note_network-fresh pool (lookup id) seen)

-- The networks of the state, where it has a pool and a lookup.
abbrev pub indexers_fresh :
    Option (ℕ → Result DataError (Option ℤ)) → Option (HashMap Bytes ℕ) → List Bytes → Bool
indexers_fresh (some pool) (some lookup) ids = all_fresh pool lookup ids
indexers_fresh (some pool) none ids = true
indexers_fresh none lookup ids = true

ages_of-fresh :
    (pool : Option (ℕ → Result DataError (Option ℤ))) (lookup : Option (HashMap Bytes ℕ))
    (ids : List Bytes)
    → fresh_seen (ages_of pool lookup ids) ≡ indexers_fresh pool lookup ids
unfolding ages_of
ages_of-fresh (some pool) (some lookup) ids = fold_ages-fresh pool lookup ids nothing_seen
ages_of-fresh (some pool) none ids = refl
ages_of-fresh none lookup ids = refl

verdict-status :
    (ready : Bool) (seen : Seen)
    → (verdict_response
        (ready_verdict ready seen.worst_age seen.saw_error ready_max_lag_seconds)).status
      ≡ (elim (ready && fresh_seen seen) [ true ↦ 200 | false ↦ 503 ])
unfolding verdict_response ready_verdict
verdict-status ready seen = ground arith

-- The readiness probe answers 200 when the backend is ready and each indexed network with a number has a
-- live cursor that is read, and is absent or at most 30 seconds old, and 503 in every other case; a state
-- without a pool or without the network numbers answers by the backend alone.
pub readyz-status :
    (state : AppState)
    → (readyz state).status
      ≡ (elim (state.is_ready
          && indexers_fresh state.db_pool state.network_lookup state.indexed_network_ids) [
            | true ↦ 200
            | false ↦ 503
          ])
unfolding readyz
readyz-status state =
    verdict-status state.is_ready
      (ages_of state.db_pool state.network_lookup state.indexed_network_ids)
    ∙ ap (λ b. elim (state.is_ready && b) [ true ↦ 200 | false ↦ 503 ])
        (ages_of-fresh state.db_pool state.network_lookup state.indexed_network_ids)
