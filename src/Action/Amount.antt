-- ===== src/Action/Amount.antt =====
-- `parsePositiveAmount` of web/lib/actions/types.ts. viem's `parseUnits(value, 18)` is the parameter
-- `parse_units`.
use ovrflo.Prelude.{
  ℕ, Bool, true, false, not, ◌&&◌, ◌||◌, [], ◌∷◌, leb, ◌==◌, if◌then◌else◌, length, all,
}
use ovrflo.Prelude.Int.{ℤ, pos, leb_ℤ}
use ovrflo.Prelude.Text.{Text}
use ovrflo.Action.{ActionError, amount_malformed, amount_zero}

-- The white space and line ends that `trim` takes off.
abbrev pub is_space : ℕ → Bool
is_space c =
    (leb 9 c && leb c 13)
    || c == 32
    || c == 160
    || c == 5760
    || (leb 8192 c && leb c 8202)
    || c == 8232
    || c == 8233
    || c == 8239
    || c == 8287
    || c == 12288
    || c == 65279

unfoldable pub trim_start : Text → Text
trim_start [] = []
trim_start (c ∷ cs) = let rest = trim_start cs in if is_space c then rest else c ∷ cs

-- A character before a text without trailing white space.
unfoldable pub trim_before : ℕ → Text → Text
trim_before c [] = if is_space c then [] else c ∷ []
trim_before c (d ∷ ds) = c ∷ d ∷ ds

unfoldable pub trim_end : Text → Text
trim_end [] = []
trim_end (c ∷ cs) = trim_before c (trim_end cs)

unfoldable pub trim : Text → Text
trim s = trim_end (trim_start s)

abbrev pub is_digit : ℕ → Bool
is_digit c = leb b'0' c && leb c b'9'

-- The digits at the beginning, and the rest.
unfoldable pub digits_then : Text → Text × Text
digits_then [] = ([], [])
digits_then (c ∷ cs) =
    let rest = digits_then cs in if is_digit c then (c ∷ rest.0, rest.1) else ([], c ∷ cs)

abbrev pub is_nonempty : Text → Bool
is_nonempty [] = false
is_nonempty (c ∷ cs) = true

-- `(?:\.\d{1,18})?$`
abbrev pub is_fraction : Text → Bool
is_fraction [] = true
is_fraction (c ∷ cs) = c == b'.' && all is_digit cs && leb 1 (length cs) && leb (length cs) 18

-- `/^\d+(?:\.\d{1,18})?$/`
unfoldable pub matches_amount : Text → Bool
matches_amount s = is_nonempty (digits_then s).0 && is_fraction (digits_then s).1

pub data ParsedAmount : Type 0 where
  parsed : ℤ → ParsedAmount
  refused : ActionError → ParsedAmount

module _ (parse_units : Text → ℤ) where
  unfoldable pub parse_positive_amount : Text → ParsedAmount
  parse_positive_amount raw =
      let value = trim raw in
      if not (matches_amount value)
      then refused (record {
        code = amount_malformed;
        message = "Enter a base-10 amount with at most 18 decimals";
      })
      else if leb_ℤ (parse_units value) (pos 0)
      then refused (record { code = amount_zero; message = "Amount must be greater than zero" })
      else parsed (parse_units value)
