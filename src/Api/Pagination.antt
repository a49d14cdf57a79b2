-- ===== src/Api/Pagination.antt =====
-- internal/api/pagination.go, and what the page numbers become in internal/store.
use go_agent_chat_server.Base.{
  ℕ, List, Option, none, some, Bool-cases, inl, inr, if◌then◌else◌, arith,
}
use go_agent_chat_server.Base.Text.{Text, is_empty}
use go_agent_chat_server.Base.Int.{ℤ, pos, negsuc, leb_ℤ, ◌≤ℤ◌}
use go_agent_chat_server.Base.Decimal.{atoi}

-- `n, err := strconv.Atoi(value)`, with an error as none.
unfoldable pub positive_int : Option ℤ → ℤ → ℤ
positive_int none fallback = fallback
positive_int (some n) fallback = if leb_ℤ n (pos 0) then fallback else n

unfoldable pub parse_positive_int : Text → ℤ → ℤ
unfolding positive_int atoi
parse_positive_int value fallback =
    if is_empty value then fallback else positive_int (atoi value) fallback

-- From the two texts of the query: (page, pageSize).
unfoldable pub parse_page_query : Text → Text → ℤ × ℤ
unfolding parse_positive_int
parse_page_query page page_size =
    let size = parse_positive_int page_size (pos 20) in
    (parse_positive_int page (pos 1), if leb_ℤ size (pos 100) then size else pos 100)

pub record PageData (A : Type 0) : Type 0 where
  pub items : List A
  pub page : ℤ
  pub page_size : ℤ
  pub total : ℕ

unfoldable pub page_data : {A : Type 0} → ℤ → ℤ → List A × ℕ → PageData A
page_data page page_size (items, total) = record {
  items = items;
  page = page;
  page_size = page_size;
  total = total;
}

positive_int-pos :
    (n : Option ℤ) (fallback : ℤ) → pos 1 ≤ℤ fallback → pos 1 ≤ℤ positive_int n fallback
unfolding positive_int
positive_int-pos none fallback h = h
positive_int-pos (some (pos n)) fallback h = ground arith
positive_int-pos (some (negsuc n)) fallback h = ground arith

at_most-pos : (size : ℤ) → pos 1 ≤ℤ size → pos 1 ≤ℤ (if leb_ℤ size (pos 100) then size else pos 100)
at_most-pos (pos n) h = ground arith
at_most-pos (negsuc n) h = ground arith

at_most-bound : (size : ℤ) → (if leb_ℤ size (pos 100) then size else pos 100) ≤ℤ pos 100
at_most-bound (pos n) = ground arith
at_most-bound (negsuc n) = ground arith

parse_positive_int-pos :
    (value : Text) (fallback : ℤ) → pos 1 ≤ℤ fallback → pos 1 ≤ℤ parse_positive_int value fallback
unfolding parse_positive_int
parse_positive_int-pos value fallback h = elim (Bool-cases (is_empty value)) [
  | inl empty ↦ rw empty h
  | inr given ↦ rw given (positive_int-pos (atoi value) fallback h)
]

-- Whatever the query holds, the page number and the page size are at least 1 and the size is at
-- most 100.
pub parse_page_query-bounds :
    (page page_size : Text)
    → (pos 1 ≤ℤ (parse_page_query page page_size).0)
      × (pos 1 ≤ℤ (parse_page_query page page_size).1)
      × ((parse_page_query page page_size).1 ≤ℤ pos 100)
unfolding parse_page_query
parse_page_query-bounds page page_size =
    let size_pos = parse_positive_int-pos page_size (pos 20) (omega arith) in
    (
      parse_positive_int-pos page (pos 1) (omega arith),
      at_most-pos (parse_positive_int page_size (pos 20)) size_pos,
      at_most-bound (parse_positive_int page_size (pos 20)),
    )
