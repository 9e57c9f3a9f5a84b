-- ===== src/Sim/Text.antt =====
-- The text that lc3tools/lc3sim.c puts out, as bytes: the conversions of `printf` that it uses, and
-- `strncasecmp` and `isspace` in the C locale. An `int` is its 32 bits.
use Prim.Native.Char.{code}
use Prim.Native.String.{String}
use lc3_script_tools.Base.{
  ℕ, zero, suc, ◌+◌, ◌-◌, ◌/◌, ◌%◌, ◌^◌, ◌≡◌, refl, Bool, true, false, ◌&&◌, ◌||◌, List, [], ◌∷◌,
  ◌++◌, ltb, leb, ◌==◌, if◌then◌else◌, length, map,
}
use lc3_script_tools.Symbol.Names.{tolower}

abbrev pub Text : Type 0
Text = List ℕ

-- The bytes of a literal.
unfoldable pub text : String → Text
text String.[] = []
text (String.◌∷◌ c s) = code c ∷ text s

unfoldable pub repeat : ℕ → ℕ → Text
repeat zero c = []
repeat (suc n) c = c ∷ repeat n c

-- A digit of `%X`.
abbrev pub digit : ℕ → ℕ
digit d = if ltb d 10 then 48 + d else 55 + d

-- The digits of a number in a base, at most `most` of them, before `rest`.
unfoldable pub digits : ℕ → ℕ → ℕ → Text → Text
digits zero base v rest = rest
digits (suc most) base v rest =
    let more = digits most base (v / base) (digit (v % base) ∷ rest) in
    if v / base == 0 then digit (v % base) ∷ rest else more

-- `%0wX` of an unsigned int.
unfoldable pub hex : ℕ → ℕ → Text
unfolding digits repeat
hex w v = let ds = digits 8 16 v [] in repeat (w - length ds) 48 ++ ds

-- `%0wx`.
unfoldable pub hex_lower : ℕ → ℕ → Text
unfolding tolower
hex_lower w v = map tolower (hex w v)

-- `%d` of an int.
unfoldable pub dec : ℕ → Text
unfolding digits
dec v = if ltb v (2 ^ 31) then digits 10 10 v [] else 45 ∷ digits 10 10 (2 ^ 32 - v) []

-- `%ws`, and `%-ws`.
unfoldable pub pad_left : ℕ → Text → Text
unfolding repeat
pad_left w t = repeat (w - length t) 32 ++ t

unfoldable pub pad_right : ℕ → Text → Text
unfolding repeat
pad_right w t = t ++ repeat (w - length t) 32

-- `%.ws`.
unfoldable pub cut : ℕ → Text → Text
cut zero t = []
cut (suc w) [] = []
cut (suc w) (c ∷ t) = c ∷ cut w t

-- `strncasecmp (a, b, n) == 0`.
unfoldable pub same_prefix : ℕ → Text → Text → Bool
same_prefix zero a b = true
same_prefix (suc n) [] [] = true
same_prefix (suc n) [] (d ∷ b) = false
same_prefix (suc n) (c ∷ a) [] = false
same_prefix (suc n) (c ∷ a) (d ∷ b) = (tolower c == tolower d) && same_prefix n a b

-- `strcmp (a, b) == 0`.
unfoldable pub same_text : Text → Text → Bool
same_text [] [] = true
same_text [] (d ∷ b) = false
same_text (c ∷ a) [] = false
same_text (c ∷ a) (d ∷ b) = (c == d) && same_text a b

unfoldable pub is_space : ℕ → Bool
is_space c = (c == 32) || leb 9 c && leb c 13

unfoldable pub is_print : ℕ → Bool
is_print c = leb 32 c && leb c 126

unfoldable pub skip_spaces : Text → Text
unfolding is_space
skip_spaces [] = []
skip_spaces (c ∷ t) = let rest = skip_spaces t in if is_space c then rest else c ∷ t

hex_of_4660 : hex 4 0x12ab ≡ text "12AB"
unfolding hex text
hex_of_4660 = refl

dec_of_minus : dec (2 ^ 32 - 212) ≡ text "-212"
unfolding dec text
dec_of_minus = refl
