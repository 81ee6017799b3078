-- ===== src/Queries/Transfers/Probed.antt =====
-- src/data/indexed/queries/transfers.rs: the transfers that the rows of a query make, where all are readable.
use allfeat_explorer.Common.{
  ℕ, zero, suc, ◌≤◌, ◌≡◌, refl, sym, ap, subst, ◌∙◌, true, some, List, [], ◌∷◌, map, Bytes, arith,
  keep, take, length, All, Bool-cases, inl, inr,
}
use allfeat_explorer.Common.Integers.{ℤ, pos, as_i32, as_i32-pos, as_i64, as_i64-pos, at_least_zero}
use allfeat_explorer.Common.Maps.{pair_lt}
use allfeat_explorer.Domain.{Transfer}
use allfeat_explorer.Queries.Keyset.{truncate-probe, has_more-probe, IsDescending, rest_below}
use allfeat_explorer.Queries.Pager.{IsPageOf}
use allfeat_explorer.Queries.Extrinsics.{Codec, address_of}
use allfeat_explorer.Ss58.Prefix.{encode_ss58_bytes}
use allfeat_explorer.Queries.Extrinsics.Paged.{InRange, lt_row-pos}
use allfeat_explorer.Queries.Transfers.{
  TransferRow, position, below_upper, row_to_transfer, directed, row_extrinsic, parse_i128,
  to_transfers, probed, position_text, next_cursor, page_of,
}

-- A row whose block and event are numbered from zero, within what the cursor's casts keep.
pub record IsPlaced (row : TransferRow) : Type 0 where
  pub block : row.block_num ≡ pos (at_least_zero row.block_num)
  pub index : row.event_idx ≡ pos (at_least_zero row.event_idx)
  pub range : InRange (position row)

abbrev pub key_of : Transfer × (ℕ × ℕ) → ℕ × ℕ
key_of p = p.1

abbrev pub item_of : Transfer × (ℕ × ℕ) → Transfer
item_of p = p.0

pub below_upper-lt :
    (k : ℕ × ℕ) (row : TransferRow)
    → InRange k
    → IsPlaced row
    → below_upper (some k) row ≡ pair_lt (position row) k
unfolding below_upper
below_upper-lt k row r p =
    lt_row-pos row.block_num row.event_idx (as_i64 k.0) (as_i32 k.1) p.block p.index
      (as_i64-pos k.0 r.block) (as_i32-pos k.1 r.index)

pub page-IsPageOf :
    (count : ℕ) (ys : List (Transfer × (ℕ × ℕ)))
    → IsPageOf key_of position_text item_of count ys (page_of count (take (suc count) ys))
unfolding page_of next_cursor
page-IsPageOf count ys = record {
  items = ap (map item_of) (truncate-probe count ys);
  ends = λ h. rw (has_more-probe count ys, h) refl;
  goes_on = λ r h l. rw (has_more-probe count ys, h, truncate-probe count ys, l) refl;
}

module _ (codec : Codec) (ss58_prefix : ℕ) where
  -- A row whose addresses, delta and phase make a transfer.
  abbrev pub IsReadable : TransferRow → Type 0
  IsReadable row = (t : Transfer) × (row_to_transfer codec ss58_prefix row ≡ some t)

  -- A row with a phase, two account ids of 32 bytes and a number makes a transfer.
  pub row_to_transfer-some :
      (row : TransferRow) (i : ℤ) (account counterparty : Bytes) (delta : ℤ)
      → row.phase_idx ≡ some i
      → encode_ss58_bytes codec.blake2b512 codec.to_base58 row.account ss58_prefix ≡ some account
      → address_of codec ss58_prefix row.counterparty ≡ some counterparty
      → parse_i128 row.delta ≡ some delta
      → IsReadable row
  unfolding row_to_transfer
  row_to_transfer-some row i account counterparty delta p a c d = (
    directed codec ss58_prefix (row_extrinsic codec ss58_prefix row (at_least_zero i)) account
        counterparty delta,
    ground arith,
  )

  abbrev pub read : List TransferRow → List (Transfer × (ℕ × ℕ))
  read = probed codec ss58_prefix

  probed-some :
      (row : TransferRow) (rows : List TransferRow) (t : Transfer)
      → row_to_transfer codec ss58_prefix row ≡ some t
      → read (row ∷ rows) ≡ (t, position row) ∷ read rows
  unfolding probed
  probed-some row rows t e = ground arith

  pub probed-keep :
      (k : ℕ × ℕ) (rows : List TransferRow)
      → All IsReadable rows
      → read (keep (λ row. pair_lt (position row) k) rows) ≡ rest_below key_of pair_lt k (read rows)
  unfolding probed
  probed-keep k [] h = refl
  probed-keep k (row ∷ rows) ((t, e), h) = elim (Bool-cases (pair_lt (position row) k)) [
    | inl low ↦ ground (arith, probed-keep k rows h)
    | inr other ↦ ground (arith, probed-keep k rows h)
  ]

  pub probed-take :
      (n : ℕ) (rows : List TransferRow)
      → All IsReadable rows
      → read (take n rows) ≡ take n (read rows)
  unfolding probed
  probed-take zero rows h = refl
  probed-take (suc n) [] h = refl
  probed-take (suc n) (row ∷ rows) ((t, e), h) =
      probed-some row (take n rows) t e
      ∙ ap (◌∷◌ (t, position row)) (probed-take n rows h)
      ∙ sym (ap (take (suc n)) (probed-some row rows t e))

  pub probed-All :
      (P : ℕ × ℕ → Type 0) (rows : List TransferRow)
      → All IsReadable rows
      → All (λ row. P (position row)) rows
      → All (λ p. P (key_of p)) (read rows)
  unfolding probed
  probed-All P [] h ps = tt
  probed-All P (row ∷ rows) ((t, e), h) (p, ps) =
      subst (All (λ q. P (key_of q))) (sym (probed-some row rows t e)) (p, probed-All P rows h ps)

  pub probed-IsDescending :
      (rows : List TransferRow)
      → All IsReadable rows
      → IsDescending position pair_lt rows
      → IsDescending key_of pair_lt (read rows)
  unfolding probed
  probed-IsDescending [] h d = tt
  probed-IsDescending (row ∷ rows) ((t, e), h) (low, d) =
      subst (IsDescending key_of pair_lt) (sym (probed-some row rows t e))
        (probed-All (λ k. pair_lt k (position row) ≡ true) rows h low, probed-IsDescending rows h d)

  pub probed-items :
      (rows : List TransferRow)
      → All IsReadable rows
      → map item_of (read rows) ≡ to_transfers codec ss58_prefix rows
  unfolding probed to_transfers
  probed-items [] h = refl
  probed-items (row ∷ rows) ((t, e), h) = ground (arith, probed-items rows h)

  pub length-probed :
      (rows : List TransferRow) → All IsReadable rows → length (read rows) ≤ length rows
  unfolding probed
  length-probed [] h = omega arith
  length-probed (row ∷ rows) ((t, e), h) = ground (arith, length-probed rows h)
