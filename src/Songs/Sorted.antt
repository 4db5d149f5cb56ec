-- ===== src/Songs/Sorted.antt =====
-- The blocks of a song in their order, and the numbers that a payload gives them.
use church_presenter.Common.{
  ℕ, ◌<◌, ◌≤◌, pos, negsuc, ◌≡◌, refl, sym, ap, ◌∙◌, inl, inr, true, false, ◌||◌, List, [], ◌∷◌,
  map, arith, leb, ◌==◌, All, any, Bool-cases,
}
use church_presenter.Common.Outcome.{done, ◌>>=◌-done}
use church_presenter.Ipc.{Number}
use church_presenter.Json.{Value, get, num, trunc}
use church_presenter.RuntimeValidation.{
  expect_record, expect_string, expect_optional_string, expect_number, parse_all, trimmed, raw,
}
use church_presenter.RuntimeValidation.Records.{BlockPayload, from_one, natural, parse_block}
use church_presenter.Songs.{
  Block, has_order, are_orders_distinct, insert_block, sort_blocks, block_of,
}

-- The orders grow from block to block.
abbrev pub IsAscending : List Block → Type 0
IsAscending [] = Unit
IsAscending (b ∷ rest) = All (λ (c : Block). b.order < c.order) rest × IsAscending rest

abbrev pub IsNumbered : Block → Type 0
IsNumbered b = 1 ≤ b.order

has_order-insert :
    (n : ℕ) (b : Block) (blocks : List Block)
    → has_order n (insert_block b blocks) ≡ ((b.order == n) || has_order n blocks)
unfolding has_order insert_block any
has_order-insert n b [] = refl
has_order-insert n b (c ∷ rest) = ground (arith, has_order-insert n b rest)

has_order-sort :
    (n : ℕ) (blocks : List Block) → has_order n (sort_blocks blocks) ≡ has_order n blocks
unfolding sort_blocks has_order any
has_order-sort n [] = refl
has_order-sort n (b ∷ rest) =
    has_order-insert n b (sort_blocks rest) ∙ ap ((b.order == n) ||◌) (has_order-sort n rest)

All-insert :
    (P : Block → Type 0) (b : Block) (blocks : List Block)
    → P b
    → All P blocks
    → All P (insert_block b blocks)
unfolding insert_block
All-insert P b [] p h = (p, tt)
All-insert P b (c ∷ rest) p h = elim (Bool-cases (leb b.order c.order)) [
  | inl e ↦ rw e (p, h)
  | inr e ↦ rw e (h.0, All-insert P b rest p h.1)
]

pub All-sort :
    (P : Block → Type 0) (blocks : List Block) → All P blocks → All P (sort_blocks blocks)
unfolding sort_blocks
All-sort P [] h = tt
All-sort P (b ∷ rest) h = All-insert P b (sort_blocks rest) h.0 (All-sort P rest h.1)

below_all :
    (m n : ℕ) (blocks : List Block)
    → m < n
    → All (λ (c : Block). n < c.order) blocks
    → All (λ (c : Block). m < c.order) blocks
below_all m n [] l h = tt
below_all m n (c ∷ rest) l h = (omega (arith, h.0), below_all m n rest l h.1)

insert_block-IsAscending :
    (b : Block) (blocks : List Block)
    → has_order b.order blocks ≡ false
    → IsAscending blocks
    → IsAscending (insert_block b blocks)
unfolding insert_block has_order any
insert_block-IsAscending b [] free h = (tt, tt)
insert_block-IsAscending b (c ∷ rest) free h = elim (Bool-cases (leb b.order c.order)) [
  | inl e ↦
      let l : b.order < c.order = ground arith in
      rw e ((l, below_all b.order c.order rest l h.0), h)
  | inr e ↦ rw e (
    All-insert (λ (d : Block). c.order < d.order) b rest (ground arith) h.0,
    insert_block-IsAscending b rest (ground arith) h.1,
  )
]

pub sort_blocks-IsAscending :
    (blocks : List Block) → are_orders_distinct blocks ≡ true → IsAscending (sort_blocks blocks)
unfolding sort_blocks are_orders_distinct
sort_blocks-IsAscending [] d = tt
sort_blocks-IsAscending (b ∷ rest) d =
    insert_block-IsAscending b (sort_blocks rest) (has_order-sort b.order rest ∙ ground arith)
      (sort_blocks-IsAscending rest (ground arith))

-- A number that passes `{ integer: true, min: 1 }` counts at least one.
from_one_bound :
    (v : Value) (n : Number) → expect_number from_one v ≡ done n → 1 ≤ natural (trunc n)
unfolding expect_number
from_one_bound (num (pos k)) n h = ground arith
from_one_bound (num (negsuc k)) n h = ground arith
from_one_bound _ n h = cc

parse_block-IsNumbered : (v : Value) (b : BlockPayload) → parse_block v ≡ done b → 1 ≤ b.order
unfolding parse_block
parse_block-IsNumbered v b h =
    let (rec, e0, h0) = ◌>>=◌-done (expect_record v) _ h in
    let (order, e1, h1) = ◌>>=◌-done (expect_number from_one (get "order" rec)) _ h0 in
    let (type, e2, h2) = ◌>>=◌-done (expect_string trimmed (get "type" rec)) _ h1 in
    let (title, e3, h3) = ◌>>=◌-done (expect_optional_string trimmed (get "title" rec)) _ h2 in
    let (content, e4, h4) = ◌>>=◌-done (expect_string raw (get "content" rec)) _ h3 in
    let same : natural (trunc order) ≡ b.order = ground arith in
    rw same at (from_one_bound (get "order" rec) order e1)

pub parse_all-IsNumbered :
    (values : List Value) (blocks : List BlockPayload)
    → parse_all parse_block values ≡ done blocks
    → All IsNumbered (map block_of blocks)
unfolding parse_all
parse_all-IsNumbered [] [] h = tt
parse_all-IsNumbered [] (b ∷ blocks) h = cc
parse_all-IsNumbered (v ∷ rest) blocks h =
    let (b, e0, h0) = ◌>>=◌-done (parse_block v) _ h in
    let (others, e1, h1) = ◌>>=◌-done (parse_all parse_block rest) _ h0 in
    let same : (b ∷ others) ≡ blocks = ground arith in
    rw (sym same) (parse_block-IsNumbered v b e0, parse_all-IsNumbered rest others e1)
