-- ===== src/Runtime/Fuel.antt =====
-- The loop over authorizations of web/lib/action-runtime.ts ends: each round attempts a key that was
-- not attempted, and one round more than there are keys is enough.
use ovrflo.Prelude.{
  ◌≡◌, ◌≤◌, ◌<◌, ◌∙◌, sym, refl, Bool, true, false, not, ◌&&◌, inl, inr, List, [], ◌∷◌, any, arith,
  Bool-cases, length, filter,
}
use ovrflo.Prelude.Int.{ℤ, eqb_ℤ, eq_of_parts}
use ovrflo.Prelude.Text.{Text, text_eq, text_eq_iff, text_eq_refl}
use ovrflo.Action.{Authorization, erc20, erc721}
use ovrflo.Runtime.{same_key}

text_eq-congr : (a b c : Text) → text_eq a b ≡ true → text_eq b c ≡ text_eq a c
text_eq-congr a b c h = let e : a ≡ b = (text_eq_iff a b).0 h in rw e refl

eqb_congr : (a b c : ℤ) → eqb_ℤ a b ≡ true → eqb_ℤ b c ≡ eqb_ℤ a c
eqb_congr a b c h = let e : a ≡ b = ground (arith, eq_of_parts a b) in rw e refl

all_four :
    (p q r s : Bool) → (p && q && r && s) ≡ true → (p ≡ true) × (q ≡ true) × (r ≡ true) × (s ≡ true)
all_four p q r s h = ground arith

all_three : (p q r : Bool) → (p && q && r) ≡ true → (p ≡ true) × (q ≡ true) × (r ≡ true)
all_three p q r h = ground arith

same_key-congr : (a b c : Authorization) → same_key a b ≡ true → same_key b c ≡ same_key a c
unfolding same_key
same_key-congr (erc20 a) (erc20 b) (erc20 c) h =
    let (k, l, m, n) =
      all_four (text_eq a.token b.token) (text_eq a.spender b.spender)
        (eqb_ℤ a.required_amount b.required_amount) (eqb_ℤ a.approval_amount b.approval_amount) h in
    rw
      (
        text_eq-congr a.token b.token c.token k,
        text_eq-congr a.spender b.spender c.spender l,
        eqb_congr a.required_amount b.required_amount c.required_amount m,
        eqb_congr a.approval_amount b.approval_amount c.approval_amount n,
      )
      refl
same_key-congr (erc721 a) (erc721 b) (erc721 c) h =
    let (k, l, m) =
      all_three (text_eq a.token b.token) (text_eq a.spender b.spender)
        (eqb_ℤ a.token_id b.token_id) h in
    rw
      (
        text_eq-congr a.token b.token c.token k,
        text_eq-congr a.spender b.spender c.spender l,
        eqb_congr a.token_id b.token_id c.token_id m,
      )
      refl
same_key-congr (erc20 a) (erc20 b) (erc721 c) h = refl
same_key-congr (erc721 a) (erc721 b) (erc20 c) h = refl
same_key-congr (erc20 a) (erc721 b) c h = absurd (cc)
same_key-congr (erc721 a) (erc20 b) c h = absurd (cc)

same_key_refl : (a : Authorization) → same_key a a ≡ true
unfolding same_key
same_key_refl (erc20 a) = rw (text_eq_refl a.token, text_eq_refl a.spender) (ground arith)
same_key_refl (erc721 a) = rw (text_eq_refl a.token, text_eq_refl a.spender) (ground arith)

any-same_key-congr :
    (a b : Authorization) (ks : List Authorization)
    → same_key a b ≡ true
    → any (same_key b) ks ≡ any (same_key a) ks
any-same_key-congr a b [] h = refl
any-same_key-congr a b (k ∷ ks) h = rw (same_key-congr a b k h, any-same_key-congr a b ks h) refl

-- The keys that were not attempted.
abbrev pub fresh_keys : List Authorization → List Authorization → List Authorization
fresh_keys keys ks = filter (λ k. not (any (same_key k) ks)) keys

fresh_keys-le :
    (keys ks : List Authorization) (a : Authorization)
    → length (fresh_keys keys (a ∷ ks)) ≤ length (fresh_keys keys ks)
fresh_keys-le [] ks a = omega arith
fresh_keys-le (k ∷ keys) ks a = elim (Bool-cases (any (same_key k) ks)) [
  | inl e ↦ elim (Bool-cases (same_key k a)) [
    | inl f ↦ rw (e, f) (fresh_keys-le keys ks a)
    | inr f ↦ rw (e, f) (fresh_keys-le keys ks a)
  ]
  | inr e ↦ elim (Bool-cases (same_key k a)) [
    | inl f ↦ rw (e, f) (omega (arith, fresh_keys-le keys ks a))
    | inr f ↦ rw (e, f) (omega (arith, fresh_keys-le keys ks a))
  ]
]

-- An attempt at a new key of the list leaves one key less.
pub fresh_keys-lt :
    (keys ks : List Authorization) (a : Authorization)
    → any (same_key a) keys ≡ true
    → any (same_key a) ks ≡ false
    → length (fresh_keys keys (a ∷ ks)) < length (fresh_keys keys ks)
fresh_keys-lt [] ks a h g = absurd (cc)
fresh_keys-lt (k ∷ keys) ks a h g = elim (Bool-cases (same_key a k)) [
  | inl e ↦
      let f : any (same_key k) ks ≡ false = any-same_key-congr a k ks e ∙ g in
      let s : same_key k a ≡ true = same_key-congr a k a e ∙ same_key_refl a in
      rw (f, s) (omega (arith, fresh_keys-le keys ks a))
  | inr e ↦
      let rest : any (same_key a) keys ≡ true = sym (rw e refl) ∙ h in
      elim (Bool-cases (any (same_key k) ks)) [
        | inl f ↦ elim (Bool-cases (same_key k a)) [
          | inl s ↦ rw (f, s) (fresh_keys-lt keys ks a rest g)
          | inr s ↦ rw (f, s) (fresh_keys-lt keys ks a rest g)
        ]
        | inr f ↦ elim (Bool-cases (same_key k a)) [
          | inl s ↦ rw (f, s) (omega (arith, fresh_keys-lt keys ks a rest g))
          | inr s ↦ rw (f, s) (omega (arith, fresh_keys-lt keys ks a rest g))
        ]
      ]
]
