-- ===== src/Queries/Pager.antt =====
-- A client that follows `next_cursor` from page to page, over any list endpoint: the pages are served
-- from rows that descend strictly in their keys, each page behind the key of the cursor.
use allfeat_explorer.Common.{
  ℕ, zero, suc, ◌+◌, ◌≤◌, ◌<◌, ◌≡◌, refl, sym, ap, ap₂, subst, ◌∙◌, Bool, true, false, Option, none,
  some, List, [], ◌∷◌, ◌++◌, map, Bytes, arith, ltb, ltb→lt, take, drop, length, Bool-cases, inl,
  inr, Result, ok, err, In, append_assoc, map-append, take-all, take-append-drop,
}
use allfeat_explorer.Common.Members.{In-right}
use allfeat_explorer.Domain.{Page}
use allfeat_explorer.Errors.{DataError}
use allfeat_explorer.Queries.Keyset.{last, last-take, IsDescending, below-row, rest_below}

module _ {Item : Type 0} where
  -- A page's items, and those of the pages behind it.
  unfoldable pub collect : (Option Bytes → List Item) → Option Bytes → List Item → List Item
  collect more none items = items
  collect more (some text) items = items ++ more (some text)

  unfoldable pub collect_page :
      (Option Bytes → List Item) → Result DataError (Page Item) → List Item
  unfolding collect
  collect_page more (err e) = []
  collect_page more (ok page) = collect more page.page_info.next_cursor page.items

  -- The items of the pages from the page at a cursor on, for up to `fuel` pages.
  unfoldable pub walk : (Option Bytes → Result DataError (Page Item)) → ℕ → Option Bytes → List Item
  walk serve zero cursor = []
  walk serve (suc fuel) cursor = collect_page (walk serve fuel) (serve cursor)

  module _ (serve : Option Bytes → Result DataError (Page Item)) (fuel : ℕ) (cursor : Option Bytes)
      (page : Page Item) (served : serve cursor ≡ ok page) where
    pub walk-last : page.page_info.next_cursor ≡ none → walk serve (suc fuel) cursor ≡ page.items
    unfolding walk collect_page collect
    walk-last n =
        ap (collect_page (walk serve fuel)) served
        ∙ ap (λ c. collect (walk serve fuel) c page.items) n

    walk-next :
        (text : Bytes)
        → page.page_info.next_cursor ≡ some text
        → walk serve (suc fuel) cursor ≡ page.items ++ walk serve fuel (some text)
    unfolding walk collect_page collect
    walk-next text n =
        ap (collect_page (walk serve fuel)) served
        ∙ ap (λ c. collect (walk serve fuel) c page.items) n

short : (n m : ℕ) → ltb n m ≡ false → m ≤ n
short n m h = ground arith

module _ {Row : Type 0} where
  length-behind :
      (n : ℕ) (ys : List Row)
      → n < length ys
      → (0 < length (drop n ys)) × (n + length (drop n ys) ≡ length ys)
  length-behind zero ys h = (h, omega arith)
  length-behind (suc n) [] h = absurd (omega arith)
  length-behind (suc n) (y ∷ ys) h =
      let (a, b) = length-behind n ys (omega arith) in (a, omega arith)

  regroup :
      (pre pre' : List Row) (r : Row) (ys : List Row)
      → (pre ++ pre') ++ r ∷ ys ≡ (pre ++ pre' ++ r ∷ []) ++ ys
  regroup [] [] r ys = refl
  regroup [] (x ∷ pre') r ys = ap (◌∷◌ x) (regroup [] pre' r ys)
  regroup (x ∷ pre) pre' r ys = ap (◌∷◌ x) (regroup pre pre' r ys)

-- `cursor.map(|c| c.to_string())`
abbrev pub cursor_text : {K : Type 0} → (K → Bytes) → Option K → Option Bytes
cursor_text text none = none
cursor_text text (some k) = some (text k)

module _ {Row K : Type 0} (key : Row → K) (before : K → K → Bool) (rows : List Row) where
  -- The rows that a cursor leaves.
  abbrev pub window : Option K → List Row
  window none = rows
  window (some k) = rest_below key before k rows

  -- A cursor that a walk meets: none, or a row's key with rows behind it.
  abbrev pub IsMet : Option K → Type 0
  IsMet none = Unit {0}
  IsMet (some k) = (r : Row) × In r rows × (key r ≡ k) × (0 < length (rest_below key before k rows))

module _ {Row Item K : Type 0} (key : Row → K) (text : K → Bytes) (shown : Row → Item) where
  -- The page of up to `count` rows.
  pub record IsPageOf (count : ℕ) (ys : List Row) (page : Page Item) : Type 0 where
    pub items : page.items ≡ map shown (take count ys)
    pub ends : ltb count (length ys) ≡ false → page.page_info.next_cursor ≡ none
    pub goes_on :
        (r : Row)
        → ltb count (length ys) ≡ true
        → last (take count ys) ≡ some r
        → page.page_info.next_cursor ≡ some (text (key r))

  module _ (before : K → K → Bool) (rows : List Row) where
    abbrev pub Serves : ℕ → (Option Bytes → Result DataError (Page Item)) → Type 0
    Serves count serve =
        (c : Option K)
        → IsMet key before rows c
        → (page : Page Item) × (serve (cursor_text text c) ≡ ok page)
          × IsPageOf count (window key before rows c) page

    module _ (irreflexive : (k : K) → before k k ≡ false)
        (asymmetric : (j k : K) → before j k ≡ true → before k j ≡ false) (count : ℕ)
        (some_rows : 0 < count) (serve : Option Bytes → Result DataError (Page Item))
        (serves : Serves count serve) (descending : IsDescending key before rows) where
      walk-from :
          (fuel : ℕ) (c : Option K) (pre ys : List Row)
          → IsMet key before rows c
          → window key before rows c ≡ ys
          → rows ≡ pre ++ ys
          → length ys < fuel
          → walk serve fuel (cursor_text text c) ≡ map shown ys
      walk-from zero c pre ys met w k lt = absurd (omega arith)
      walk-from (suc fuel) c pre ys met w k lt =
          let (page, served, at_window) = serves c met in
          let is = subst (λ zs. IsPageOf count zs page) w at_window in
          elim (Bool-cases (ltb count (length ys))) [
            | inr m ↦
                walk-last serve fuel (cursor_text text c) page served (is.ends m)
                ∙ is.items
                ∙ ap (map shown) (take-all count ys (short count (length ys) m))
            | inl m ↦
                let (pre', r, l, t, s) =
                  last-take count ys (ltb→lt count (length ys) m) some_rows in
                let rest = drop count ys in
                let split : rows ≡ (pre ++ pre') ++ r ∷ rest =
                  k ∙ ap (λ zs. pre ++ zs) s ∙ sym (append_assoc pre pre' (r ∷ rest)) in
                let behind = length-behind count ys (ltb→lt count (length ys) m) in
                let below : rest_below key before (key r) rows ≡ rest =
                  ap (rest_below key before (key r)) split
                  ∙ below-row key before asymmetric (pre ++ pre') r rest (irreflexive (key r))
                      (subst (IsDescending key before) split descending) in
                let held : In r rows =
                  subst (In r) (sym split) (In-right r (pre ++ pre') (r ∷ rest) (inl refl)) in
                walk-next serve fuel (cursor_text text c) page served (text (key r))
                  (is.goes_on r m l)
                ∙ ap₂ (λ zs ws. zs ++ ws) is.items
                    (walk-from fuel (some (key r)) (pre ++ pre' ++ r ∷ []) rest
                      (r, held, refl, subst (λ zs. 0 < length zs) (sym below) behind.0) below
                      (split ∙ regroup pre pre' r rest) (omega (arith, behind.1)))
                ∙ sym (map-append shown (take count ys) rest)
                ∙ ap (map shown) (take-append-drop count ys)
          ]

      -- Following the cursors from the first page gives every row's item, in order and once, within one
      -- page for each row and one more.
      pub walk_all : (fuel : ℕ) → length rows < fuel → walk serve fuel none ≡ map shown rows
      walk_all fuel lt = walk-from fuel none [] rows tt refl refl lt
