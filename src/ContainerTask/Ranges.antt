-- ===== src/ContainerTask/Ranges.antt =====
-- The byte ranges in which `download_sdk` of node/src/container_task.rs fetches a file.
use popsicle.Prelude.{
  ℕ, zero, suc, ◌+◌, ◌-◌, ◌≤◌, ◌<◌, ◌≡◌, refl, sym, subst, ap, ◌∙◌, ◌⊎◌, min, max_u64, add_u64,
  sub_u64, Option, none, some, List, [], ◌∷◌, ltb, inl, inr, Bool-cases, arith,
}
use popsicle.ContainerTask.{PartialRangeIter, new, next, chunk_size, file_ranges}

-- The whole iteration, for at most `fuel` ranges.
unfoldable pub collect : ℕ → PartialRangeIter → Option (List (ℕ × ℕ))
unfolding next
collect zero r = none
collect (suc fuel) r = elim (next r) [
  | none ↦ some []
  | some (range, rest) ↦ elim (collect fuel rest) [
    | none ↦ none
    | some ranges ↦ some (range ∷ ranges)
  ]
]

-- Ranges, none empty and none longer than `size`, that cover the bytes from `start` up to `stop`, one
-- after the other.
abbrev pub Tile : ℕ → ℕ → ℕ → List (ℕ × ℕ) → Type 0
Tile size start stop [] = start ≡ stop
Tile size start stop (r ∷ rs) =
    (r.0 ≡ start) × (r.0 ≤ r.1) × (r.1 + 1 - r.0 ≤ size) × Tile size (r.1 + 1) stop rs

-- Below the largest u64 nothing wraps.
next_exact :
    (r : PartialRangeIter)
    → r.start ≤ r.end
    → r.end < max_u64
    → 0 < r.buffer_size
    → let after = r.start + min r.buffer_size (r.end - r.start + 1) in
      next r ≡ some ((r.start, after - 1), record r { start = after })
unfolding next
next_exact r le small pos =
    let left : add_u64 (sub_u64 r.end r.start) 1 ≡ r.end - r.start + 1 = omega arith in
    let after : add_u64 r.start (min r.buffer_size (r.end - r.start + 1))
        ≡ r.start + min r.buffer_size (r.end - r.start + 1) =
      omega arith in
    let last : sub_u64 (r.start + min r.buffer_size (r.end - r.start + 1)) 1
        ≡ r.start + min r.buffer_size (r.end - r.start + 1) - 1 =
      omega arith in
    ground (arith, left, after, last, le)

collect_one :
    (fuel : ℕ) (r : PartialRangeIter) (range : ℕ × ℕ) (rest : PartialRangeIter)
    (ranges : List (ℕ × ℕ))
    → next r ≡ some (range, rest)
    → collect fuel rest ≡ some ranges
    → collect (suc fuel) r ≡ some (range ∷ ranges)
unfolding collect
collect_one fuel r range rest ranges e f = ground (arith, e, f)

collect-Tile :
    (fuel : ℕ) (r : PartialRangeIter)
    → 0 < r.buffer_size
    → r.end < max_u64
    → r.start ≤ r.end + 1
    → r.end + 1 - r.start < fuel
    → (ranges : List (ℕ × ℕ)) × (collect fuel r ≡ some ranges)
      × Tile r.buffer_size r.start (r.end + 1) ranges
unfolding collect next
collect-Tile zero r pos small le lt = let bad : zero ≡ suc zero = omega arith in cc
collect-Tile (suc fuel) r pos small le lt = elim (Bool-cases (ltb r.end r.start)) [
  | inl over ↦ ([], ground (arith, over), ground (arith, over, le))
  | inr more ↦
      let after : ℕ = r.start + min r.buffer_size (r.end - r.start + 1) in
      let inside : r.start ≤ r.end = ground (arith, more) in
      let rest : PartialRangeIter = record r { start = after } in
      let (ranges, e, t) =
        collect-Tile fuel rest pos small (omega (arith, inside)) (omega (arith, inside, pos, lt)) in
      let stop : after - 1 + 1 ≡ after = omega (arith, pos) in
      (
        (r.start, after - 1) ∷ ranges,
        collect_one fuel r _ rest ranges (next_exact r inside small pos) e,
        (
          refl,
          omega (arith, pos),
          omega (arith, pos),
          subst (λ x. Tile r.buffer_size x (r.end + 1) ranges) (sym stop) t,
        ),
      )
]

-- With a positive buffer, an end below the largest u64 and a start of at most one past the end, the
-- iteration ends within one more step than there are bytes; its ranges are not empty, not longer than
-- the buffer, and cover the bytes from `start` to `end`, each once and in order.
new-Tile :
    (start end size : ℕ)
    → 0 < size
    → end < max_u64
    → start ≤ end + 1
    → (r : PartialRangeIter) × (ranges : List (ℕ × ℕ)) × (new start end size ≡ some r)
      × (collect (end + 2 - start) r ≡ some ranges)
      × Tile size start (end + 1) ranges
unfolding new
new-Tile start end size pos small le =
    let r : PartialRangeIter = record { start = start; end = end; buffer_size = size } in
    let (ranges, e, t) = collect-Tile (end + 2 - start) r pos small le (omega (arith, le)) in
    (r, ranges, ground (arith, pos), e, t)

-- With a first byte of 0 and a last one of the largest u64, the number of bytes left wraps to 0.
collect_stays :
    (fuel size : ℕ) → collect fuel (record { start = 0; end = max_u64; buffer_size = size }) ≡ none
unfolding collect next
collect_stays zero size = refl
collect_stays (suc fuel) size = ground (arith, collect_stays fuel size)

-- For a length that is a u64: the ranges of a file that has a byte end within one more step than there
-- are bytes, none is empty or longer than `CHUNK_SIZE`, and they cover the file, each byte once and in
-- order. Those of an empty file never end, however many steps they are given.
pub file_ranges-Tile :
    (length : ℕ)
    → length ≤ max_u64
    → (r : PartialRangeIter) × (file_ranges length ≡ some r)
      × (((0 < length)
            × (ranges : List (ℕ × ℕ)) × (collect (length + 1) r ≡ some ranges)
            × Tile chunk_size 0 length ranges)
          ⊎ ((length ≡ 0) × ((fuel : ℕ) → collect fuel r ≡ none)))
unfolding file_ranges new
file_ranges-Tile zero small = (_, refl, inr (refl, λ fuel. collect_stays fuel chunk_size))
file_ranges-Tile (suc n) small =
    let last : sub_u64 (suc n) 1 ≡ n = omega (arith, small) in
    let (r, ranges, e, runs, tile) =
      new-Tile 0 n chunk_size (omega arith) (omega (arith, small)) (omega arith) in
    (
      r,
      ap (λ k. new 0 k chunk_size) last ∙ e,
      inl (
        omega arith,
        ranges,
        subst (λ k. collect k r ≡ some ranges) (omega arith) runs,
        subst (λ k. Tile chunk_size 0 k ranges) (omega arith) tile,
      ),
    )
