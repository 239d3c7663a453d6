-- ===== src/Common/Texts.antt =====
-- Text as the list of its code points, and the operations of `str` that the program uses.
use Prim.Native.Char.{code}
use Prim.Native.Nat.{ℕ, ◌+◌}
use Prim.Native.String.{String}
use mathlib.Core.Bool.{Bool, true, false, ◌&&◌, ◌||◌}
use mathlib.Core.List.{List, [], ◌∷◌, ◌++◌, map, reverse}
use mathlib.Core.Logic.{◌↔◌}
use mathlib.Core.Option.{Option, none, some}
use mathlib.Core.Path.{◌≡◌, refl, ap}
use native.Mathlib.Omega.{arith}
use rustern.Common.Bools.{nat_beq, leb, ltb, if◌then◌else◌}
use rustern.Common.Equality.{Eq}
use rustern.Common.Lists.{any}

abbrev pub Text : Type 0
Text = List ℕ

-- The code points of a literal.
abbrev pub codes : String → Text
codes String.[] = []
codes (String.◌∷◌ c s) = code c ∷ codes s

unfoldable pub text_beq : Text → Text → Bool
text_beq [] [] = true
text_beq [] (b ∷ t) = false
text_beq (a ∷ s) [] = false
text_beq (a ∷ s) (b ∷ t) = nat_beq a b && text_beq s t

text_beq_sound : (s t : Text) → text_beq s t ≡ true → s ≡ t
unfolding text_beq
text_beq_sound [] [] h = refl
text_beq_sound [] (b ∷ t) h = ground arith
text_beq_sound (a ∷ s) [] h = ground arith
text_beq_sound (a ∷ s) (b ∷ t) h = ground (arith, text_beq_sound s t)

text_beq_self : (s : Text) → text_beq s s ≡ true
unfolding text_beq
text_beq_self [] = refl
text_beq_self (a ∷ s) = ground (arith, text_beq_self s)

pub text_beq_iff : (s t : Text) → (text_beq s t ≡ true) ↔ (s ≡ t)
text_beq_iff s t = (text_beq_sound s t, λ e. rw e (text_beq_self t))

instance abbrev pub text_eq : Eq Text
text_eq = record { beq = text_beq; beq_iff = text_beq_iff }

unfoldable pub is_empty {ℓ} : {A : Type ℓ} → List A → Bool
is_empty [] = true
is_empty (x ∷ xs) = false

-- `char::is_whitespace`: the code points of the Unicode property White_Space.
unfoldable pub is_whitespace : ℕ → Bool
is_whitespace c =
    (leb 9 c && leb c 13)
    || nat_beq c 32
    || nat_beq c 0x85
    || nat_beq c 0xa0
    || nat_beq c 0x1680
    || (leb 0x2000 c && leb c 0x200a)
    || nat_beq c 0x2028
    || nat_beq c 0x2029
    || nat_beq c 0x202f
    || nat_beq c 0x205f
    || nat_beq c 0x3000

unfoldable pub trim_start : Text → Text
trim_start [] = []
trim_start (c ∷ s) = if is_whitespace c then trim_start s else c ∷ s

unfoldable pub trim_end : Text → Text
unfolding trim_start
trim_end s = reverse (trim_start (reverse s))

unfoldable pub trim : Text → Text
unfolding trim_start trim_end is_whitespace
trim s = trim_end (trim_start s)

-- `str::starts_with` at one character.
unfoldable pub starts_with_char : Text → ℕ → Bool
starts_with_char [] c = false
starts_with_char (x ∷ s) c = nat_beq x c

unfoldable pub ascii_lower : ℕ → ℕ
ascii_lower c = if leb b'A' c && leb c b'Z' then c + 32 else c

unfoldable pub to_ascii_lowercase : Text → Text
unfolding ascii_lower
to_ascii_lowercase s = map ascii_lower s

unfoldable pub eq_ignore_ascii_case : Text → Text → Bool
unfolding to_ascii_lowercase text_beq
eq_ignore_ascii_case s t = text_beq (to_ascii_lowercase s) (to_ascii_lowercase t)

cons_head : ℕ → List Text → List Text
cons_head x [] = (x ∷ []) ∷ []
cons_head x (w ∷ ws) = (x ∷ w) ∷ ws

-- `str::split` at one character: never empty.
unfoldable pub split : ℕ → Text → List Text
unfolding cons_head
split c [] = [] ∷ []
split c (x ∷ s) = let rest = split c s in if nat_beq x c then [] ∷ rest else cons_head x rest

extend_left : ℕ → Option (Text × Text) → Option (Text × Text)
extend_left x none = none
extend_left x (some (a, b)) = some (x ∷ a, b)

-- `str::split_once` at one character.
unfoldable pub split_once : ℕ → Text → Option (Text × Text)
unfolding extend_left
split_once c [] = none
split_once c (x ∷ s) =
    let rest = extend_left x (split_once c s) in if nat_beq x c then some ([], s) else rest

-- The first part ends at the first such character.
pub split_once-first :
    (c : ℕ) (a b : Text) → any (nat_beq c) a ≡ false → split_once c (a ++ (c ∷ b)) ≡ some (a, b)
unfolding split_once any extend_left
split_once-first c [] b h = let self : nat_beq c c ≡ true = ground arith in rw self refl
split_once-first c (x ∷ a) b h =
    let other : nat_beq x c ≡ false = ground arith in
    rw other (ap (extend_left x) (split_once-first c a b (ground arith)))

-- `[String]::join`.
unfoldable pub join : Text → List Text → Text
join sep [] = []
join sep (w ∷ []) = w
join sep (w ∷ v ∷ ws) = w ++ (sep ++ join sep (v ∷ ws))

-- The order of `str`: that of UTF-8 bytes, which is the order of the code points.
unfoldable pub text_le : Text → Text → Bool
text_le [] t = true
text_le (a ∷ s) [] = false
text_le (a ∷ s) (b ∷ t) = ltb a b || (nat_beq a b && text_le s t)

-- `str::len`: the bytes of the UTF-8 encoding.
unfoldable pub char_len : ℕ → ℕ
char_len c = if ltb c 0x80 then 1 else if ltb c 0x800 then 2 else if ltb c 0x10000 then 3 else 4

unfoldable pub byte_len : Text → ℕ
unfolding char_len
byte_len [] = 0
byte_len (c ∷ s) = char_len c + byte_len s
