-- ===== src/Indexed/Seam.antt =====
-- src/data/indexed/provider.rs: the order of a page of `latest_blocks`, where pending blocks of the RPC
-- provider meet rows of the database.
use allfeat_explorer.Common.{
  ℕ, suc, ◌+◌, ◌-◌, ◌<◌, ◌≤◌, ◌≡◌, refl, sym, subst, ◌∙◌, true, Option, none, some, List, [], ◌∷◌,
  ◌++◌, map, arith, ltb, leb, ◌==◌, keep, take, length, min, All, Bool-cases, Option-cases, inl,
  inr, if_elim, length-append, length-take, append-nil, append_assoc, All-append, lt→ltb,
}
use allfeat_explorer.Common.Keeping.{All-keep, All-take, All-each, All-map}
use allfeat_explorer.Domain.{Block, Page, empty_page}
use allfeat_explorer.Filters.{BlockFilters}
use allfeat_explorer.Queries.Keyset.{
  IsDescending, IsDescending-keep, IsDescending-take, IsDescending-map, truncate,
}
use allfeat_explorer.Queries.Blocks.{
  BlockRow, num_bound, indexed_head, within_bound, enough_extrinsics, fetch, is_excluded,
  row_to_block, rows_to_page, list_blocks_page_bounded,
}
use allfeat_explorer.Decimal.{u32_max}
use allfeat_explorer.Queries.Blocks.Head.{no_head, indexed_head-All}
use allfeat_explorer.Queries.Extrinsics.{Codec}
use allfeat_explorer.Indexed.{Tables, indexed_head_or_zero}
use allfeat_explorer.Indexed.Blocks.{take_pending, top_up, filled}

abbrev pub number_of : Block → ℕ
number_of b = b.number

abbrev pub Ordered : List Block → Type 0
Ordered = IsDescending number_of ltb

-- What the loop takes of the RPC page: a prefix above the head, up to the page's size.
pub take_pending-prefix :
    (count head : ℕ) (bs taken : List Block)
    → length taken < count
    → (k : ℕ) × (take_pending count head bs taken ≡ taken ++ take k bs)
      × All (λ b. head < b.number) (take k bs)
      × (length (take_pending count head bs taken) ≤ count)
unfolding take_pending
take_pending-prefix count head [] taken h = (0, sym (append-nil taken), tt, omega (arith, h))
take_pending-prefix count head (b ∷ bs) taken h = elim (Bool-cases (ltb head b.number)) [
  | inr low ↦ (0, rw (low) (sym (append-nil taken)), tt, rw (low) (omega (arith, h)))
  | inl above ↦ elim (Bool-cases (leb count (length (taken ++ b ∷ [])))) [
    | inl full ↦ (
      1,
      rw (above, full) refl,
      (ground arith, tt),
      rw (above, full) (omega (arith, h, length-append taken (b ∷ []))),
    )
    | inr room ↦
        let (k, e, high, few) =
          take_pending-prefix count head bs (taken ++ b ∷ []) (ground arith) in
        (
          suc k,
          rw (above, room) (e ∙ append_assoc taken (b ∷ []) (take k bs)),
          (ground arith, high),
          rw (above, room) few,
        )
  ]
]

append-Ordered :
    (head : ℕ) (xs ys : List Block)
    → Ordered xs
    → All (λ b. head < b.number) xs
    → Ordered ys
    → All (λ b. b.number ≤ head) ys
    → Ordered (xs ++ ys)
append-Ordered head [] ys d above e below = e
append-Ordered head (x ∷ xs) ys (h, d) (a, above) e below = (
  All-append (λ s. ltb s.number x.number ≡ true) xs ys h
      (All-each ys (λ y low. lt→ltb y.number x.number (omega (arith, a, low))) below),
  append-Ordered head xs ys d above e below,
)

-- A page of the database.
pub record IsBelow (head : ℕ) (page : Page Block) : Type 0 where
  pub order : Ordered page.items
  pub below : All (λ b. b.number ≤ head) page.items

head_or_zero-some :
    (tables : Tables) (n : ℕ)
    → indexed_head tables.blocks ≡ some n
    → indexed_head_or_zero tables ≡ n
unfolding indexed_head_or_zero
head_or_zero-some tables n h = ground arith

-- No row is above the head that the provider reads.
pub head_or_zero-All :
    (tables : Tables) → All (λ row. row.num ≤ indexed_head_or_zero tables) tables.blocks
head_or_zero-All tables = elim (Option-cases (indexed_head tables.blocks)) [
  | inl h ↦
      subst (All (λ row. row.num ≤ indexed_head_or_zero tables)) (sym (no_head tables.blocks h)) tt
  | inr (n, h) ↦
      subst (λ k. All (λ row. row.num ≤ k) tables.blocks) (sym (head_or_zero-some tables n h))
        (indexed_head-All tables.blocks n h)
]

abbrev shown_rows : Option ℕ → BlockFilters → List BlockRow → List BlockRow
shown_rows upper filters table =
    keep (within_bound (num_bound none upper))
      (keep (enough_extrinsics filters.min_extrinsics) table)

module _ (codec : Codec) (ss58_prefix : ℕ) where
  rows-IsBelow :
      (head count : ℕ) (rows : List BlockRow)
      → IsDescending (λ (row : BlockRow). row.num) ltb rows
      → All (λ row. row.num ≤ head) rows
      → IsBelow head (rows_to_page codec.blake2b512 codec.to_base58 rows count ss58_prefix)
  unfolding rows_to_page truncate row_to_block
  rows-IsBelow head count rows d low =
      if_elim
        (λ kept. IsBelow head (record {
          items = map (row_to_block codec.blake2b512 codec.to_base58 ss58_prefix) kept;
          page_info =
              (rows_to_page codec.blake2b512 codec.to_base58 rows count ss58_prefix).page_info;
        }))
        (ltb count (length rows))
        (λ h. record {
          order =
              IsDescending-map number_of ltb
                (row_to_block codec.blake2b512 codec.to_base58 ss58_prefix) (take count rows)
                (IsDescending-take (λ (row : BlockRow). row.num) ltb count rows d);
          below =
              All-map (λ b. b.number ≤ head)
                (row_to_block codec.blake2b512 codec.to_base58 ss58_prefix) (take count rows)
                (All-take (λ row. row.num ≤ head) count rows low);
        })
        (λ h. record {
          order =
              IsDescending-map number_of ltb
                (row_to_block codec.blake2b512 codec.to_base58 ss58_prefix) rows d;
          below =
              All-map (λ b. b.number ≤ head)
                (row_to_block codec.blake2b512 codec.to_base58 ss58_prefix) rows low;
        })

  pub bounded-IsBelow :
      (head count : ℕ) (table : List BlockRow) (upper : Option ℕ) (filters : BlockFilters)
      → IsDescending (λ (row : BlockRow). row.num) ltb table
      → All (λ row. row.num ≤ head) table
      → IsBelow head (
          list_blocks_page_bounded codec.blake2b512 codec.to_base58 table count none upper filters
            ss58_prefix)
  unfolding list_blocks_page_bounded fetch empty_page
  bounded-IsBelow head count table upper filters d low =
      if_elim (IsBelow head) (count == 0) (λ e. record { order = tt; below = tt })
        (λ e.
          if_elim (IsBelow head) (is_excluded filters.finalized)
            (λ x. record { order = tt; below = tt })
            (λ x.
              rows-IsBelow head count
                (fetch (num_bound none upper) filters.min_extrinsics (min (count + 1) u32_max)
                  table)
                (IsDescending-take (λ (row : BlockRow). row.num) ltb (min (count + 1) u32_max)
                  (shown_rows upper filters table)
                  (IsDescending-keep (λ (row : BlockRow). row.num) ltb
                    (within_bound (num_bound none upper))
                    (keep (enough_extrinsics filters.min_extrinsics) table)
                    (IsDescending-keep (λ (row : BlockRow). row.num) ltb
                      (enough_extrinsics filters.min_extrinsics) table d)))
                (All-take (λ row. row.num ≤ head) (min (count + 1) u32_max)
                  (shown_rows upper filters table)
                  (All-keep (λ row. row.num ≤ head) (within_bound (num_bound none upper))
                    (keep (enough_extrinsics filters.min_extrinsics) table)
                    (All-keep (λ row. row.num ≤ head) (enough_extrinsics filters.min_extrinsics)
                      table low)))))

-- Pending blocks with a database page behind them.
pub record IsSeam (count head : ℕ) (pending : List Block) : Type 0 where
  pub order : Ordered pending
  pub above : All (λ b. head < b.number) pending
  pub few : length pending ≤ count

-- What a page shows: blocks in descending order, at most `count` of them.
pub record IsPage (count : ℕ) (items : List Block) : Type 0 where
  pub order : Ordered items
  pub few : length items ≤ count

pub top_up-IsPage :
    (count head : ℕ) (pending : List Block) (page : Page Block)
    → IsSeam count head pending
    → IsBelow head page
    → IsPage count (top_up pending (count - length pending) page).items
unfolding top_up
top_up-IsPage count head pending page seam db =
    let need = count - length pending in
    elim (Bool-cases (ltb need (length page.items))) [
      | inl h ↦ rw (h) (record {
        order =
            append-Ordered head pending (take need page.items) seam.order seam.above
              (IsDescending-take number_of ltb need page.items db.order)
              (All-take (λ b. b.number ≤ head) need page.items db.below);
        few = ground (
          arith,
          seam.few,
          length-append pending (take need page.items),
          length-take need page.items,
        );
      })
      | inr h ↦ rw (h) (record {
        order = append-Ordered head pending page.items seam.order seam.above db.order db.below;
        few = ground (arith, seam.few, length-append pending page.items);
      })
    ]

pub filled-items :
    (pending : List Block) (upper head : ℕ) → (filled pending upper head).items ≡ pending
unfolding filled
filled-items pending upper head = ground arith
