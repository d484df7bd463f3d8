-- ===== src/ClaimAll/Agreement.antt =====
-- What it means in web/lib/claim-all.ts that two lists of candidates compare as the same.
use ovrflo.Prelude.{
  ◌≡◌, refl, sym, ap, subst, ◌∙◌, inl, inr, Bool, true, false, ◌||◌, [], ◌∷◌, ◌++◌, ◌==◌, ==_iff,
  length, insert_sorted, sort_from, sort, arith, Bool-cases,
}
use ovrflo.Prelude.Text.{Text, text_eq, text_eq_iff}
use ovrflo.ClaimAll.Preflight.{
  Candidates, text_before, has, unique_from, normalized_candidates, same_places,
  same_claim_all_candidates,
}

or_swap : (p q r : Bool) → (p || (q || r)) ≡ (q || (p || r))
or_swap p q r = ground arith

or_move : (p q r : Bool) → ((p || q) || r) ≡ (q || (p || r))
or_move p q r = ground arith

has-insert_sorted :
    (c x : Text) (ys : Candidates)
    → has c (insert_sorted text_before x ys) ≡ (text_eq c x || has c ys)
has-insert_sorted c x [] = refl
has-insert_sorted c x (y ∷ ys) = elim (Bool-cases (text_before x y)) [
  | inl e ↦ rw e refl
  | inr e ↦ rw (e, has-insert_sorted c x ys) (or_swap (text_eq c y) (text_eq c x) (has c ys))
]

has-sort_from :
    (c : Text) (acc xs : Candidates)
    → has c (sort_from text_before acc xs) ≡ (has c acc || has c xs)
unfolding sort_from
has-sort_from c acc [] = ground arith
has-sort_from c acc (x ∷ xs) =
    has-sort_from c (insert_sorted text_before x acc) xs
    ∙ rw (has-insert_sorted c x acc) (or_move (text_eq c x) (has c acc) (has c xs))

pub has-append : (c : Text) (xs ys : Candidates) → has c (xs ++ ys) ≡ (has c xs || has c ys)
has-append c [] ys = refl
has-append c (x ∷ xs) ys = rw (has-append c xs ys) (ground arith)

has-unique_from :
    (c : Text) (seen cs : Candidates) → has c (unique_from seen cs) ≡ (has c seen || has c cs)
unfolding unique_from
has-unique_from c seen [] = ground arith
has-unique_from c seen (x ∷ xs) = elim (Bool-cases (has x seen)) [
  | inl e ↦ rw e (
      has-unique_from c seen xs ∙ elim (Bool-cases (text_eq c x)) [
        | inl f ↦
            let here : has c seen ≡ true =
              subst (λ d. has d seen ≡ true) (sym ((text_eq_iff c x).0 f)) e in
            rw here refl
        | inr f ↦ rw f refl
      ])
  | inr e ↦
      rw e (has-unique_from c (seen ++ x ∷ []) xs ∙ rw (has-append c seen (x ∷ [])) (ground arith))
]

pub has-normalized_candidates :
    (c : Text) (cs : Candidates) → has c (normalized_candidates cs) ≡ has c cs
unfolding normalized_candidates sort
has-normalized_candidates c cs = has-sort_from c [] (unique_from [] cs) ∙ has-unique_from c [] cs

same_places-eq : (xs ys : Candidates) → length xs ≡ length ys → same_places xs ys ≡ true → xs ≡ ys
same_places-eq [] [] h g = refl
same_places-eq [] (y ∷ ys) h g = absurd (omega (arith, h))
same_places-eq (x ∷ xs) [] h g = absurd (omega (arith, h))
same_places-eq (x ∷ xs) (y ∷ ys) h g = elim (Bool-cases (text_eq x y)) [
  | inl e ↦
      let rest : same_places xs ys ≡ true = sym (rw e refl) ∙ g in
      let head : x ≡ y = (text_eq_iff x y).0 e in
      let tail : xs ≡ ys = same_places-eq xs ys (omega (arith, h)) rest in rw (head, tail) refl
  | inr e ↦ let f : false ≡ true = sym (rw e refl) ∙ g in absurd (cc)
]

-- Candidates that compare as the same are the same set, in whatever order and however often they
-- are listed.
pub same_claim_all_candidates-has :
    (left right : Candidates)
    → same_claim_all_candidates left right ≡ true
    → (c : Text) → has c left ≡ has c right
unfolding same_claim_all_candidates
same_claim_all_candidates-has left right h c =
    let l = normalized_candidates left in
    let r = normalized_candidates right in
    elim (Bool-cases (length l == length r)) [
      | inl e ↦
          let places : same_places l r ≡ true = sym (rw e refl) ∙ h in
          let same : l ≡ r = same_places-eq l r ((==_iff (length l) (length r)).0 e) places in
          sym (has-normalized_candidates c left)
          ∙ ap (has c) same
          ∙ has-normalized_candidates c right
      | inr e ↦ let f : false ≡ true = sym (rw e refl) ∙ h in absurd (cc)
    ]
