-- ===== src/Base/Text.antt =====
-- JavaScript strings as lists of code units, and the operations that the services apply to them.
use Prim.Native.Char.{code}
use Prim.Native.String.{String}
use mathlib.Core.List.{reverse, append_assoc}
use derive_docs.Base.{
  All, not, ℕ, ◌+◌, ◌≡◌, refl, ◌↔◌, Bool, true, false, ◌&&◌, ◌||◌, List, [], ◌∷◌, ◌++◌, map, arith,
  leb, ◌==◌, if◌then◌else◌,
}

abbrev pub Text : Type 0
Text = List ℕ

-- The code points of a literal.
abbrev pub codes : String → Text
codes String.[] = []
codes (String.◌∷◌ c s) = code c ∷ codes s

-- `a === b`
unfoldable pub text_eq : Text → Text → Bool
text_eq [] [] = true
text_eq (a ∷ s) (b ∷ t) = a == b && text_eq s t
text_eq _ _ = false

pub text_eq_iff : (s t : Text) → (text_eq s t ≡ true) ↔ (s ≡ t)
unfolding text_eq
text_eq_iff [] [] = (λ h. refl, λ h. refl)
text_eq_iff [] (b ∷ t) = (λ h. cc, λ h. cc)
text_eq_iff (a ∷ s) [] = (λ h. cc, λ h. cc)
text_eq_iff (a ∷ s) (b ∷ t) = ground (arith, text_eq_iff s t)

pub text_eq_refl : (s : Text) → text_eq s s ≡ true
text_eq_refl s = (text_eq_iff s s).1 refl

-- `s.toLowerCase()`, on the ASCII characters of addresses and hashes.
abbrev pub lower_code : ℕ → ℕ
lower_code c = if leb b'A' c && leb c b'Z' then c + 32 else c

unfoldable pub to_lower : Text → Text
to_lower s = map lower_code s

abbrev pub is_digit : ℕ → Bool
is_digit c = leb b'0' c && leb c b'9'

abbrev pub is_hex_digit : ℕ → Bool
is_hex_digit c = is_digit c || (leb b'a' c && leb c b'f') || (leb b'A' c && leb c b'F')

abbrev is_space : ℕ → Bool
is_space c = c == b' ' || (leb 9 c && leb c 13)

trim_start : Text → Text
trim_start [] = []
trim_start (c ∷ s) = if is_space c then trim_start s else c ∷ s

-- `s.trim()`
unfoldable pub trim : Text → Text
unfolding trim_start
trim s = reverse (trim_start (reverse (trim_start s)))

abbrev cons_first : ℕ → List Text → List Text
cons_first c [] = (c ∷ []) ∷ []
cons_first c (l ∷ ls) = (c ∷ l) ∷ ls

-- `s.split("\n")`
unfoldable pub split_lines : Text → List Text
split_lines [] = [] ∷ []
split_lines (c ∷ s) = if c == 10 then [] ∷ split_lines s else cons_first c (split_lines s)

abbrev pub is_line : Text → Bool
is_line [] = true
is_line (c ∷ s) = not (c == 10) && is_line s

-- Whole lines, each with its newline.
abbrev pub unlines : List Text → Text
unlines [] = []
unlines (l ∷ ls) = l ++ (10 ∷ unlines ls)

pub split_lines-line :
    (l s : Text) → is_line l ≡ true → split_lines (l ++ (10 ∷ s)) ≡ l ∷ split_lines s
unfolding split_lines
split_lines-line [] s h = refl
split_lines-line (c ∷ l) s h = ground (arith, split_lines-line l s)

pub split_lines_last : (l : Text) → is_line l ≡ true → split_lines l ≡ l ∷ []
unfolding split_lines
split_lines_last [] h = refl
split_lines_last (c ∷ l) h = ground (arith, split_lines_last l)

pub split_lines-unlines :
    (ls : List Text) (s : Text)
    → All (λ l. is_line l ≡ true) ls
    → split_lines (unlines ls ++ s) ≡ ls ++ split_lines s
split_lines-unlines [] s h = refl
split_lines-unlines (l ∷ ls) s h = rw (
  append_assoc l (10 ∷ unlines ls) s,
  split_lines-line l (unlines ls ++ s) h.0,
  split_lines-unlines ls s h.1,
)

pub unlines-append : (ks ls : List Text) → unlines (ks ++ ls) ≡ unlines ks ++ unlines ls
unlines-append [] ls = refl
unlines-append (k ∷ ks) ls =
    rw (append_assoc k (10 ∷ unlines ks) (unlines ls), unlines-append ks ls)

pub is_line-append : (s t : Text) → is_line s ≡ true → is_line t ≡ true → is_line (s ++ t) ≡ true
is_line-append [] t h k = k
is_line-append (c ∷ s) t h k = ground (arith, is_line-append s t)
