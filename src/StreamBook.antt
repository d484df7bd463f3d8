-- ===== src/StreamBook.antt =====
-- The pages of a book of streams: web/lib/stream-book.ts. A page is the identifiers of its rows.
pub mod Paging
pub mod Folded
use ovrflo.Prelude.{
  ℕ, ◌==◌, Bool, not, ◌&&◌, ◌||◌, Option, none, some, List, [], ◌∷◌, ◌++◌, any, if◌then◌else◌,
}
use ovrflo.Prelude.Int.{ℤ, pos, ◌+ℤ◌, ltb_ℤ, eqb_ℤ}

pub record BookFields : Type 0 where
  pub source_count : ℤ
  pub render_count : ℕ
  pub is_complete : Bool
  pub confirmed_empty : Bool

unfoldable pub window_stop : ℤ → ℤ → ℤ → ℤ
window_stop start source_count page_size =
    let stop = start +ℤ page_size in if ltb_ℤ source_count stop then source_count else stop

unfoldable pub next_page_param : ℤ → ℤ → ℤ → Option ℤ
next_page_param last_page_param source_count page_size =
    if eqb_ℤ source_count (pos 0)
    then none
    else (let next = last_page_param +ℤ page_size in
        if ltb_ℤ next source_count then some next else none)

pub record FoldedStreams : Type 0 where
  pub ids : List ℤ
  pub duplicate : Option ℤ

-- The duplicate, once there is one, stays.
abbrev pub duplicate_with : Option ℤ → List ℤ → ℤ → Option ℤ
duplicate_with (some found) ids id = some found
duplicate_with none ids id = if any (λ seen. eqb_ℤ seen id) ids then some id else none

abbrev pub fold_row : FoldedStreams → ℤ → FoldedStreams
fold_row f id = record { ids = f.ids ++ id ∷ []; duplicate = duplicate_with f.duplicate f.ids id }

unfoldable pub fold_page : FoldedStreams → List ℤ → FoldedStreams
fold_page f [] = f
fold_page f (id ∷ page) = fold_page (fold_row f id) page

unfoldable pub fold_pages : FoldedStreams → List (List ℤ) → FoldedStreams
fold_pages f [] = f
fold_pages f (page ∷ pages) = fold_pages (fold_page f page) pages

unfoldable pub fold_stream_ids : List (List ℤ) → FoldedStreams
fold_stream_ids pages = fold_pages (record { ids = []; duplicate = none }) pages

unfoldable pub book_fields : ℤ → ℕ → Bool → Bool → BookFields
book_fields source_count render_count is_complete unresolved_failures = record {
  source_count = source_count;
  render_count = render_count;
  is_complete = is_complete;
  confirmed_empty =
      not unresolved_failures && (eqb_ℤ source_count (pos 0) || (is_complete && render_count == 0));
}
