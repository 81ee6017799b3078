-- ===== src/Backfill/Queue.antt =====
-- src/indexer/backfill.rs: the chunk queue in `backfill_chunks`. Each SQL statement is one atomic
-- step on the table, in the order in which the database runs them; `now()` is an argument, in
-- seconds. Texts of errors go through `truncate_error`.
pub mod Rows
pub mod Leases
pub mod Seeding
pub mod Inserts
pub mod Exclusive
use allfeat_explorer.Common.{
  ℕ, suc, ◌+◌, Bool, true, false, ◌||◌, ◌&&◌, Option, none, some, List, [], ◌∷◌, ◌++◌, map, Bytes,
  ltb, leb, ◌==◌, if◌then◌else◌,
}
use allfeat_explorer.Backfill.Chunks.{Chunk, split_gaps_into_chunks}
use allfeat_explorer.Backfill.ErrorText.{truncate_error}

pub data Status : Type 0 where
  pending running done : Status

-- A row of `backfill_chunks`.
pub record Row : Type 0 where
  pub id : ℕ
  pub network_sid : ℕ
  pub from_block : ℕ
  pub to_block : ℕ
  pub status : Status
  pub lease_until : Option ℕ
  pub last_error : Option Bytes
  pub updated_at : ℕ

-- The table and the next value of its `BIGSERIAL`.
pub record Table : Type 0 where
  pub rows : List Row
  pub next_id : ℕ

pub record ClaimedChunk : Type 0 where
  pub id : ℕ
  pub from_block : ℕ
  pub to_block : ℕ

abbrev pub lease_duration : ℕ
lease_duration = 300

abbrev pub is_pending : Status → Bool
is_pending pending = true
is_pending running = false
is_pending done = false

abbrev pub is_running : Status → Bool
is_running pending = false
is_running running = true
is_running done = false

abbrev pub lease_expired : Option ℕ → ℕ → Bool
lease_expired none now = true
lease_expired (some until) now = ltb until now

-- The inner `WHERE` of the claim.
unfoldable pub is_claimable : ℕ → ℕ → Row → Bool
is_claimable network_sid now r =
    (r.network_sid == network_sid)
    && (is_pending r.status || (is_running r.status && lease_expired r.lease_until now))

-- `ORDER BY id LIMIT 1`.
unfoldable pub earlier : Row → Option Row → Row
earlier r none = r
earlier r (some s) = if leb r.id s.id then r else s

unfoldable pub lowest : List Row → Option Row
unfolding earlier
lowest [] = none
lowest (r ∷ rows) = some (earlier r (lowest rows))

unfoldable pub select : (Row → Bool) → List Row → List Row
select p [] = []
select p (r ∷ rows) = let rest = select p rows in if p r then r ∷ rest else rest

-- `UPDATE … WHERE id = …`.
unfoldable pub update : ℕ → (Row → Row) → List Row → List Row
update id f [] = []
update id f (r ∷ rows) = (if r.id == id then f r else r) ∷ update id f rows

abbrev pub claimed : ℕ → Row → Row
claimed now r = record r {
  status = running;
  lease_until = some (now + lease_duration);
  updated_at = now;
}

unfoldable pub claim_chunk : ℕ → ℕ → Table → Table × Option ClaimedChunk
claim_chunk network_sid now t = elim (lowest (select (is_claimable network_sid now) t.rows)) [
  | none ↦ (t, none)
  | some r ↦ (
    record t { rows = update r.id (claimed now) t.rows },
    some (record { id = r.id; from_block = r.from_block; to_block = r.to_block }),
  )
]

unfoldable pub mark_chunk_done : ℕ → ℕ → Table → Table
mark_chunk_done id now t = record t {
  rows =
      update id
        (λ r. record r { status = done; lease_until = none; last_error = none; updated_at = now })
        t.rows;
}

unfoldable pub mark_chunk_failed : ℕ → Bytes → ℕ → Table → Table
mark_chunk_failed id error now t = record t {
  rows =
      update id
        (λ r. record r {
          status = pending;
          lease_until = none;
          last_error = some (truncate_error error);
          updated_at = now;
        })
        t.rows;
}

abbrev pub is_open : ℕ → Row → Bool
is_open network_sid r =
    (r.network_sid == network_sid) && (is_pending r.status || is_running r.status)

abbrev pub count : List Row → ℕ
count [] = 0
count (r ∷ rows) = suc (count rows)

unfoldable pub open_chunk_count : ℕ → Table → ℕ
open_chunk_count network_sid t = count (select (is_open network_sid) t.rows)

-- The `UNIQUE (network_id, from_block, to_block)` constraint.
unfoldable pub same_key : ℕ → Chunk → Row → Bool
same_key network_sid (from, to) r =
    (r.network_sid == network_sid) && ((r.from_block == from) && (r.to_block == to))

unfoldable pub has_key : ℕ → Chunk → List Row → Bool
has_key network_sid c [] = false
has_key network_sid c (r ∷ rows) = same_key network_sid c r || has_key network_sid c rows

unfoldable pub new_row : ℕ → ℕ → ℕ → Chunk → Row
new_row id network_sid now (from, to) = record {
  id = id;
  network_sid = network_sid;
  from_block = from;
  to_block = to;
  status = pending;
  lease_until = none;
  last_error = none;
  updated_at = now;
}

-- `INSERT … ON CONFLICT DO NOTHING`, with the rows affected. A conflict uses up an id as well.
unfoldable pub insert_pending : ℕ → ℕ → Chunk → Table → Table × ℕ
insert_pending network_sid now c t =
    if has_key network_sid c t.rows then (record t { next_id = t.next_id + 1 }, 0) else (
      record { rows = t.rows ++ new_row t.next_id network_sid now c ∷ []; next_id = t.next_id + 1 },
      1,
    )

unfoldable pub insert_all : ℕ → ℕ → List Chunk → Table → ℕ → Table × ℕ
insert_all network_sid now [] t inserted = (t, inserted)
insert_all network_sid now (c ∷ chunks) t inserted =
    let (t', n) = insert_pending network_sid now c t in
    insert_all network_sid now chunks t' (inserted + n)

-- `existing` is the result of the ordered query for the network's blocks up to `head`. The inserts
-- are one transaction.
unfoldable pub seed_chunks : ℕ → ℕ → ℕ → ℕ → List ℕ → Table → Option (Table × ℕ)
seed_chunks network_sid now head chunk_size existing t =
    elim (split_gaps_into_chunks head existing chunk_size) [
      | none ↦ none
      | some chunks ↦ some (insert_all network_sid now chunks t 0)
    ]
