-- ===== src/Text.antt =====
-- The functions of Go's package strings that the service calls. `to_upper` maps the letters whose
-- upper case is an ASCII letter, which decides every comparison with the service's ASCII constants;
-- it leaves other letters alone.
use Prim.Native.Char.{Char, code}
use Prim.Native.String.{String}
use Prim.Native.Nat.{ℕ, compare, Ordering}
use erp_stock.Base.{◌==◌, ◌≡◌, refl, Bool, true, false, ◌&&◌, ◌||◌, leb, if◌then◌else◌}

abbrev code_eq : ℕ → ℕ → Bool
code_eq a b = elim (compare a b) [ Ordering.eq ↦ true | _ ↦ false ]

-- unicode.IsSpace
unfoldable pub is_space : Char → Bool
is_space c =
    (leb 9 (code c) && leb (code c) 13)
    || code_eq (code c) 32
    || code_eq (code c) 0x85
    || code_eq (code c) 0xa0
    || code_eq (code c) 0x1680
    || (leb 0x2000 (code c) && leb (code c) 0x200a)
    || code_eq (code c) 0x2028
    || code_eq (code c) 0x2029
    || code_eq (code c) 0x202f
    || code_eq (code c) 0x205f
    || code_eq (code c) 0x3000

unfoldable pub trim_left : String → String
unfolding is_space
trim_left String.[] = ""
trim_left (String.◌∷◌ c s) = if is_space c then trim_left s else String.◌∷◌ c s

unfoldable pub trim_right : String → String
unfolding is_space
trim_right String.[] = ""
trim_right (String.◌∷◌ c s) =
    let rest = trim_right s in if is_space c && rest == "" then "" else String.◌∷◌ c rest

-- strings.TrimSpace
unfoldable pub trim_space : String → String
unfolding trim_left trim_right
trim_space s = trim_right (trim_left s)

-- The letter of `upper` at the place where `c` stands in `lower`.
unfoldable pub translate : String → String → Char → Char
translate (String.◌∷◌ l ls) (String.◌∷◌ u us) c =
    if code_eq (code l) (code c) then u else translate ls us c
translate _ _ c = c

unfoldable pub upper_char : Char → Char
unfolding translate
upper_char = translate "abcdefghijklmnopqrstuvwxyzıſ" "ABCDEFGHIJKLMNOPQRSTUVWXYZIS"

-- strings.ToUpper
unfoldable pub to_upper : String → String
unfolding upper_char
to_upper String.[] = ""
to_upper (String.◌∷◌ c s) = String.◌∷◌ (upper_char c) (to_upper s)

trim_upper : to_upper (trim_space "  loSs\n ") ≡ "LOSS"
unfolding to_upper trim_space
trim_upper = refl
