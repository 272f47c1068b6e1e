-- ===== src/Text.antt =====
-- `String` and `&str`: a text is the list of its code points. The functions are those of the
-- standard library that the program calls.
pub mod Bytes
pub mod Order
pub mod Split
use Prim.Native.Char.{code}
use Prim.Native.String.{String}
use pocket_oid.Base.{
  ℕ, ◌+◌, ◌≡◌, refl, ◌↔◌, Bool, true, false, ◌&&◌, ◌||◌, not, List, [], ◌∷◌, ◌++◌, Option, none,
  some, arith, leb, nat_beq, nat_beq_iff, Eq, if◌then◌else◌, is_empty, keep,
}

abbrev pub Text : Type 0
Text = List ℕ

-- A literal.
abbrev pub codes : String → Text
codes String.[] = []
codes (String.◌∷◌ c s) = code c ∷ codes s

unfoldable pub text_beq : Text → Text → Bool
text_beq [] [] = true
text_beq (x ∷ xs) (y ∷ ys) = nat_beq x y && text_beq xs ys
text_beq _ _ = false

pub text_beq_iff : (s t : Text) → (text_beq s t ≡ true) ↔ (s ≡ t)
unfolding text_beq
text_beq_iff [] [] = ((λ _. refl), (λ _. refl))
text_beq_iff [] (y ∷ ys) = ((λ h. cc), (λ h. cc))
text_beq_iff (x ∷ xs) [] = ((λ h. cc), (λ h. cc))
text_beq_iff (x ∷ xs) (y ∷ ys) = ground (arith, text_beq_iff xs ys, nat_beq_iff x y)

instance abbrev pub text_eq : Eq Text
text_eq = record { beq = text_beq; beq_iff = text_beq_iff }

-- `u8::to_ascii_lowercase`.
unfoldable pub to_ascii_lowercase : ℕ → ℕ
to_ascii_lowercase c = if leb b'A' c && leb c b'Z' then c + 32 else c

-- Unicode's White_Space, as `char::is_whitespace` has it.
unfoldable pub is_whitespace : ℕ → Bool
is_whitespace c =
    (leb 9 c && leb c 13)
    || nat_beq c 32
    || nat_beq c 133
    || nat_beq c 160
    || nat_beq c 5760
    || (leb 8192 c && leb c 8202)
    || nat_beq c 8232
    || nat_beq c 8233
    || nat_beq c 8239
    || nat_beq c 8287
    || nat_beq c 12288

-- A separator starts a new piece; there is always one piece.
abbrev pub extend : ℕ → List Text → List Text
extend c [] = (c ∷ []) ∷ []
extend c (piece ∷ pieces) = (c ∷ piece) ∷ pieces

unfoldable pub split_by : (ℕ → Bool) → Text → List Text
split_by p [] = [] ∷ []
split_by p (c ∷ s) = let pieces = split_by p s in if p c then [] ∷ pieces else extend c pieces

-- `str::split` at a character.
abbrev pub split : ℕ → Text → List Text
split sep s = split_by (λ c. nat_beq c sep) s

-- `str::split_whitespace`.
abbrev pub split_whitespace : Text → List Text
split_whitespace s = keep (λ w. not (is_empty w)) (split_by is_whitespace s)

-- `str::split_once` at a character: the parts before and after its first occurrence.
unfoldable pub split_once : ℕ → Text → Option (Text × Text)
split_once sep [] = none
split_once sep (c ∷ s) =
    if nat_beq c sep
    then some ([], s)
    else elim (split_once sep s) [ none ↦ none | some (k, v) ↦ some (c ∷ k, v) ]

-- `slice::join`.
unfoldable pub join : Text → List Text → Text
join sep [] = []
join sep (w ∷ []) = w
join sep (w ∷ v ∷ ws) = w ++ (sep ++ join sep (v ∷ ws))

-- `str::trim`.
unfoldable pub trim_start : Text → Text
trim_start [] = []
trim_start (c ∷ s) = let rest = trim_start s in if is_whitespace c then rest else c ∷ s

unfoldable pub trim_end : Text → Text
trim_end [] = []
trim_end (c ∷ s) =
    let rest = trim_end s in if is_whitespace c && is_empty rest then [] else c ∷ rest

abbrev pub trim : Text → Text
trim s = trim_end (trim_start s)

-- `str::strip_prefix`, and `starts_with` by it.
unfoldable pub strip_prefix : Text → Text → Option Text
strip_prefix [] s = some s
strip_prefix (p ∷ ps) [] = none
strip_prefix (p ∷ ps) (c ∷ s) = if nat_beq c p then strip_prefix ps s else none

-- `trim_end_matches('/')`.
unfoldable pub trim_end_slash : Text → Text
trim_end_slash [] = []
trim_end_slash (c ∷ s) =
    let rest = trim_end_slash s in if nat_beq c b'/' && is_empty rest then [] else c ∷ rest
