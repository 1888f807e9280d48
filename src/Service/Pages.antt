-- ===== src/Service/Pages.antt =====
-- internal/service/sessions.go: the bounds of a page. Go's int has 64 bits: a number below 2 ^ 64
-- stands for an int in two's complement.
use sniffy.Common.{
  ℕ, ◌+◌, ◌-◌, ◌*◌, ◌%◌, ◌^◌, ◌≤◌, ◌<◌, ◌≡◌, Bool, ◌||◌, arith, ltb, leb, if◌then◌else◌, min,
}
use sniffy.Common.Int.{ℤ, is_pos, pos_part}

-- `n` as an int64: the upper half of the words are the negative numbers.
unfoldable pub word : ℕ → ℕ
word n = n % 2 ^ 64

unfoldable pub is_negative : ℕ → Bool
is_negative w = leb (2 ^ 63) w

unfoldable pub default_page_size : ℕ
default_page_size = 50

-- `page` or 1, and `pageSize` or the default.
unfoldable pub page_or_first : ℤ → ℕ
page_or_first page = if is_pos page then pos_part page else 1

unfoldable pub size_or_default : ℤ → ℕ
unfolding default_page_size
size_or_default size = if is_pos size then pos_part size else default_page_size

-- `start`, of the wrapped product.
unfoldable pub start_of : ℕ → ℕ → ℕ
unfolding is_negative
start_of total w = if is_negative w || ltb total w then total else w

-- `end`, of the wrapped sum.
unfoldable pub end_of : ℕ → ℕ → ℕ → ℕ
unfolding is_negative
end_of total start w = if (is_negative w || ltb w start) || ltb total w then total else w

unfoldable pub page_bounds : ℕ → ℤ → ℤ → ℕ × ℕ
unfolding page_or_first size_or_default start_of end_of word
page_bounds total page size =
    let start = start_of total (word ((page_or_first page - 1) * size_or_default size)) in
    (start, end_of total start (word (start + size_or_default size)))

start_of-le : (total w : ℕ) → start_of total w ≤ total
unfolding start_of is_negative
start_of-le total w = ground arith

end_of-le :
    (total start w : ℕ)
    → start ≤ total
    → (start ≤ end_of total start w) × (end_of total start w ≤ total)
unfolding end_of is_negative
end_of-le total start w h = (ground arith, ground arith)

-- Whatever the page and the size, also where their product overflows, the interval lies within the
-- list: 0 ≤ start ≤ end ≤ total.
pub page_bounds-le :
    (total : ℕ) (page size : ℤ)
    → ((page_bounds total page size).0 ≤ (page_bounds total page size).1)
      × ((page_bounds total page size).1 ≤ total)
unfolding page_bounds
page_bounds-le total page size =
    let s = (page_or_first page - 1) * size_or_default size in
    end_of-le total (start_of total (word s))
      (word (start_of total (word s) + size_or_default size)) (start_of-le total (word s))

word_small : (n : ℕ) → n < 2 ^ 63 → word n ≡ n
unfolding word
word_small n h = omega (arith, h)

start_of-small : (total n : ℕ) → n < 2 ^ 63 → start_of total (word n) ≡ min n total
unfolding start_of is_negative
start_of-small total n h = rw (word_small n h) (ground arith)

-- Two ints that are not negative: the sum fits, or is negative.
end_of-small :
    (total start size : ℕ)
    → total < 2 ^ 63
    → size < 2 ^ 63
    → start ≤ total
    → end_of total start (word (start + size)) ≡ min (start + size) total
unfolding end_of is_negative word
end_of-small total start size h k l =
    let e : (start + size) % 2 ^ 64 ≡ start + size = omega (arith, h, k, l) in rw e (ground arith)

-- Where the product of the sizes of the pages before does not overflow, the interval is the page's
-- part of the list.
pub page_bounds-min :
    (total : ℕ) (page size : ℤ)
    → total < 2 ^ 63
    → size_or_default size < 2 ^ 63
    → (page_or_first page - 1) * size_or_default size < 2 ^ 63
    → page_bounds total page size ≡ (
      min ((page_or_first page - 1) * size_or_default size) total,
      min
          (min ((page_or_first page - 1) * size_or_default size) total + size_or_default size)
          total,
    )
unfolding page_bounds
page_bounds-min total page size h k l =
    let n = (page_or_first page - 1) * size_or_default size in
    let e = start_of-small total n l in
    rw (e, end_of-small total (min n total) (size_or_default size) h k (omega arith))
