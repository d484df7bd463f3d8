-- ===== src/StreamBook/Folded.antt =====
-- The identifiers of all pages in web/lib/stream-book.ts, against the set of them that
-- web/lib/actions/borrow.ts builds.
use mathlib.Core.List.{append-nil, append_assoc}
use ovrflo.Prelude.{
  ◌≡◌, refl, sym, ap, subst, ◌∙◌, Bool, true, false, ◌||◌, Option, none, some, List, [], ◌∷◌, ◌++◌,
  any, arith, Bool-cases, inl, inr,
}
use ovrflo.Prelude.Int.{ℤ, eqb_ℤ}
use ovrflo.Action.Borrow.Reads.{has_repeats}
use ovrflo.StreamBook.{
  FoldedStreams, duplicate_with, fold_row, fold_page, fold_pages, fold_stream_ids,
}

-- The rows of all pages, in their order.
abbrev pub rows_of : List (List ℤ) → List ℤ
rows_of [] = []
rows_of (page ∷ pages) = page ++ rows_of pages

abbrev pub has_duplicate : Option ℤ → Bool
has_duplicate none = false
has_duplicate (some found) = true

module _ {ℓ} {A : Type ℓ} (p : A → Bool) where
  any-append_one : (xs : List A) (y : A) → any p (xs ++ y ∷ []) ≡ (any p xs || p y)
  any-append_one [] y = ground arith
  any-append_one (x ∷ xs) y = rw (any-append_one xs y) (ground arith)

has_repeats-append_one :
    (ids : List ℤ) (y : ℤ)
    → has_repeats (ids ++ y ∷ []) ≡ (has_repeats ids || any (λ seen. eqb_ℤ seen y) ids)
unfolding has_repeats
has_repeats-append_one [] y = refl
has_repeats-append_one (x ∷ ids) y =
    rw (has_repeats-append_one ids y, any-append_one (eqb_ℤ x) ids y) (ground arith)

-- The fold so far has the rows that were seen, and a duplicate exactly if they have one.
abbrev IsFolded : FoldedStreams → List ℤ → Type 0
IsFolded f rows = (f.ids ≡ rows) × (has_duplicate f.duplicate ≡ has_repeats rows)

has_duplicate-with :
    (d : Option ℤ) (ids : List ℤ) (id : ℤ)
    → has_duplicate (duplicate_with d ids id) ≡ (has_duplicate d || any (λ seen. eqb_ℤ seen id) ids)
has_duplicate-with none ids id = elim (Bool-cases (any (λ seen. eqb_ℤ seen id) ids)) [
  | inl e ↦ rw e refl
  | inr e ↦ rw e refl
]
has_duplicate-with (some found) ids id = refl

fold_row-IsFolded :
    (f : FoldedStreams) (rows : List ℤ) (id : ℤ)
    → IsFolded f rows
    → IsFolded (fold_row f id) (rows ++ id ∷ [])
fold_row-IsFolded f rows id (same, dup) = (
  ap (λ l. l ++ id ∷ []) same,
  has_duplicate-with f.duplicate f.ids id ∙ rw (same, dup) (sym (has_repeats-append_one rows id)),
)

fold_page-IsFolded :
    (f : FoldedStreams) (rows page : List ℤ)
    → IsFolded f rows
    → IsFolded (fold_page f page) (rows ++ page)
unfolding fold_page
fold_page-IsFolded f rows [] folded = subst (IsFolded f) (sym (append-nil rows)) folded
fold_page-IsFolded f rows (id ∷ page) folded =
    subst (IsFolded (fold_page (fold_row f id) page)) (append_assoc rows (id ∷ []) page) (
      fold_page-IsFolded (fold_row f id) (rows ++ id ∷ []) page
        (fold_row-IsFolded f rows id folded))

fold_pages-IsFolded :
    (f : FoldedStreams) (rows : List ℤ) (pages : List (List ℤ))
    → IsFolded f rows
    → IsFolded (fold_pages f pages) (rows ++ rows_of pages)
unfolding fold_pages
fold_pages-IsFolded f rows [] folded = subst (IsFolded f) (sym (append-nil rows)) folded
fold_pages-IsFolded f rows (page ∷ pages) folded =
    subst (IsFolded (fold_pages (fold_page f page) pages)) (append_assoc rows page (rows_of pages))
      (fold_pages-IsFolded (fold_page f page) (rows ++ page) pages
        (fold_page-IsFolded f rows page folded))

-- Folding any pages keeps every row in the order of the pages, and reports a duplicate exactly if
-- a set of the identifiers is smaller than their list.
pub fold_stream_ids-has_repeats :
    (pages : List (List ℤ))
    → ((fold_stream_ids pages).ids ≡ rows_of pages)
      × (has_duplicate (fold_stream_ids pages).duplicate ≡ has_repeats (rows_of pages))
unfolding fold_stream_ids has_repeats
fold_stream_ids-has_repeats pages =
    fold_pages-IsFolded (record { ids = []; duplicate = none }) [] pages (refl, refl)
