-- ===== src/Base/Text.antt =====
-- The parts of Go's `strings` that the program uses, on texts as sequences of characters.
use Prim.Native.Nat.{ℕ, ◌+◌}
use Prim.Native.Char.{Char, code}
use Prim.Native.String.{String, [], ◌∷◌}
use mathlib.Core.Path.{◌≡◌, refl}
use mathlib.Core.Bool.{Bool, true, false, ◌&&◌, ◌||◌}
use mathlib.Core.List
use mathlib.Core.List.{List}
use k4all_operator.Base.Tests.{leb, ltb, nat_eq, if◌then◌else◌}

abbrev pub codes : String → List ℕ
codes [] = List.[]
codes (c ∷ s) = List.◌∷◌ (code c) (codes s)

-- strings.ToLower as far as it can make a text of the letters t, r, u, e, f, a, l and s: the other
-- letters that it maps into ASCII become i and k.
unfoldable pub to_lower : ℕ → ℕ
to_lower c = if leb b'A' c && leb c b'Z' then c + 32 else c

abbrev pub same_codes : List ℕ → List ℕ → Bool
same_codes List.[] List.[] = true
same_codes (List.◌∷◌ a as_) (List.◌∷◌ b bs) = nat_eq a b && same_codes as_ bs
same_codes _ _ = false

-- strings.ToLower(s) == "true"
unfoldable pub is_true : String → Bool
unfolding to_lower
is_true s = same_codes (List.map to_lower (codes s)) (codes "true")

-- fmt.Sprintf("%t", b), strconv.FormatBool(b)
unfoldable pub format_bool : Bool → String
format_bool true = "true"
format_bool false = "false"

pub is_true-format_bool : (b : Bool) → is_true (format_bool b) ≡ b
unfolding is_true format_bool
is_true-format_bool true = refl
is_true-format_bool false = refl

-- The bytes of a character in UTF-8.
utf8_size : ℕ → ℕ
utf8_size c = if ltb c 0x80 then 1 else if ltb c 0x800 then 2 else if ltb c 0x10000 then 3 else 4

-- len(s)
unfoldable pub byte_length : String → ℕ
unfolding utf8_size
byte_length [] = 0
byte_length (c ∷ s) = utf8_size (code c) + byte_length s

-- unicode.IsSpace
unfoldable pub is_space : ℕ → Bool
is_space c =
    (leb 9 c && leb c 13)
    || nat_eq c 32
    || nat_eq c 0x85
    || nat_eq c 0xa0
    || nat_eq c 0x1680
    || (leb 0x2000 c && leb c 0x200a)
    || nat_eq c 0x2028
    || nat_eq c 0x2029
    || nat_eq c 0x202f
    || nat_eq c 0x205f
    || nat_eq c 0x3000

trim_left : String → String
trim_left [] = []
trim_left (c ∷ s) = let rest = trim_left s in if is_space (code c) then rest else c ∷ s

keep_right : Bool → Char → String → String
keep_right true c [] = []
keep_right _ c s = c ∷ s

trim_right : String → String
unfolding keep_right
trim_right [] = []
trim_right (c ∷ s) = keep_right (is_space (code c)) c (trim_right s)

-- strings.TrimSpace
unfoldable pub trim_space : String → String
unfolding trim_left trim_right is_space
trim_space s = trim_right (trim_left s)

trims : trim_space " 1.2 v\n" ≡ "1.2 v"
unfolding trim_space
trims = refl

lowers : is_true "TrUe" ≡ true
unfolding is_true
lowers = refl
