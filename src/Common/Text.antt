-- ===== src/Common/Text.antt =====
-- Texts as Python sees them: equality, `len`, `str.strip`, truth values, character patterns.
use Prim.Native.Char.{code}
use Prim.Native.Nat.{ℕ}
use Prim.Native.String.{String, count}
use mathlib.Core.Path.{◌≡◌}
use mathlib.Core.Logic.{◌↔◌}
use mathlib.Core.Bool.{Bool, true, false, ◌&&◌, ◌||◌, not}
use mathlib.Core.Option.{Option, none, some}
use mathlib.Core.List.{List, [], ◌∷◌}
use native.Mathlib.Omega.{arith}
use text.Mathlib.Text.{◌==◌ as same_text}
use text.Mathlib.TextEquality
use factory_ops.Common.Tests.{leb, ◌==◌, if◌then◌else◌}
use factory_ops.Common.Lists.{all, any, length}

infix 50 ◌=s◌
abbrev pub ◌=s◌ : String → String → Bool
s =s t = same_text s t

pub =s_iff : (s t : String) → ((s =s t) ≡ true) ↔ (s ≡ t)
=s_iff = TextEquality.eq_iff

-- The code points of a text.
abbrev pub codes : String → List ℕ
codes String.[] = []
codes (String.◌∷◌ c s) = code c ∷ codes s

between : ℕ → ℕ → ℕ → Bool
between lo hi c = leb lo c && leb c hi

-- The code points that `str.strip` takes off.
is_space : ℕ → Bool
unfolding between
is_space c =
    between 9 13 c
    || between 28 32 c
    || c == 133
    || c == 160
    || c == 5760
    || between 8192 8202 c
    || c == 8232
    || c == 8233
    || c == 8239
    || c == 8287
    || c == 12288

-- `not text.strip()`
unfoldable pub is_blank : String → Bool
unfolding is_space all
is_blank s = all is_space (codes s)

last_code : ℕ → List ℕ → ℕ
last_code c [] = c
last_code c (d ∷ rest) = last_code d rest

trimmed_codes : List ℕ → Bool
unfolding is_space last_code
trimmed_codes [] = false
trimmed_codes (c ∷ rest) = not (is_space c) && not (is_space (last_code c rest))

-- `value and value == value.strip()`
unfoldable pub is_trimmed : String → Bool
unfolding trimmed_codes
is_trimmed s = trimmed_codes (codes s)

is_upper : ℕ → Bool
unfolding between
is_upper c = between b'A' b'Z' c

is_code_char : ℕ → Bool
unfolding between
is_code_char c = between b'A' b'Z' c || between b'0' b'9' c || c == b'_'

-- `[A-Z][A-Z0-9_]{2,127}`, on the whole list.
unfoldable pub code_pattern : List ℕ → Bool
unfolding is_upper is_code_char all
code_pattern [] = false
code_pattern (c ∷ rest) =
    is_upper c && all is_code_char rest && leb 2 (length rest) && leb (length rest) 127

-- `re.fullmatch` of that pattern.
unfoldable pub matches_reason_code : String → Bool
unfolding code_pattern
matches_reason_code s = code_pattern (codes s)

is_word_char : ℕ → Bool
unfolding between
is_word_char c = between b'A' b'Z' c || between b'a' b'z' c || between b'0' b'9' c

is_version_char : ℕ → Bool
unfolding is_word_char
is_version_char c = is_word_char c || c == b'.' || c == b'_' || c == b':' || c == b'-'

version_pattern : List ℕ → Bool
unfolding is_word_char is_version_char all
version_pattern [] = false
version_pattern (c ∷ rest) = is_word_char c && all is_version_char rest

-- `fullmatch` of `^[A-Za-z0-9][A-Za-z0-9._:-]*$`
unfoldable pub is_version : String → Bool
unfolding version_pattern
is_version s = version_pattern (codes s)

-- `[A-Za-z0-9][A-Za-z0-9._:/-]{0,n}`, on the whole list.
path_pattern : ℕ → List ℕ → Bool
unfolding is_word_char is_version_char all
path_pattern n [] = false
path_pattern n (c ∷ rest) =
    is_word_char c && all (λ d. is_version_char d || d == b'/') rest && leb (length rest) n

-- `fullmatch` of `^[A-Za-z0-9][A-Za-z0-9._:/-]{0,127}$`
unfoldable pub is_path_version : String → Bool
unfolding path_pattern
is_path_version s = path_pattern 127 (codes s)

-- `fullmatch` of `^[A-Za-z0-9][A-Za-z0-9._:/-]{0,254}$`
unfoldable pub is_reference : String → Bool
unfolding path_pattern
is_reference s = path_pattern 254 (codes s)

is_hex_digit : ℕ → Bool
unfolding between
is_hex_digit c = between b'0' b'9' c || between b'a' b'f' c

-- `fullmatch` of `^[0-9a-f]{7,64}$`
unfoldable pub is_code_revision : String → Bool
unfolding is_hex_digit all
is_code_revision s =
    all is_hex_digit (codes s) && leb 7 (length (codes s)) && leb (length (codes s)) 64

-- The truth value of a `str | None`.
abbrev pub truthy : Option String → Bool
truthy none = false
truthy (some s) = not (s =s "")

-- `len(text)`
abbrev pub text_length : String → ℕ
text_length s = count s

abbrev pub same_option : Option String → Option String → Bool
same_option none none = true
same_option (some s) (some t) = s =s t
same_option _ _ = false

pub same_option_iff : (a b : Option String) → (same_option a b ≡ true) ↔ (a ≡ b)
same_option_iff none none = ground arith
same_option_iff none (some t) = ground arith
same_option_iff (some s) none = ground arith
same_option_iff (some s) (some t) = ground (arith, =s_iff s t)

abbrev pub same_texts : List String → List String → Bool
same_texts [] [] = true
same_texts (s ∷ ss) (t ∷ ts) = s =s t && same_texts ss ts
same_texts _ _ = false

pub same_texts_iff : (a b : List String) → (same_texts a b ≡ true) ↔ (a ≡ b)
same_texts_iff [] [] = ground arith
same_texts_iff [] (t ∷ ts) = ground arith
same_texts_iff (s ∷ ss) [] = ground arith
same_texts_iff (s ∷ ss) (t ∷ ts) = ground (arith, =s_iff s t, same_texts_iff ss ts)

-- `text in texts`
abbrev pub contains : List String → String → Bool
contains texts s = any (λ t. t =s s) texts

-- Whether no text stands in the list twice.
unfoldable pub unique : List String → Bool
unfolding any
unique [] = true
unique (s ∷ rest) = not (contains rest s) && unique rest

is_upper_hex : ℕ → Bool
unfolding between
is_upper_hex c = between b'0' b'9' c || between b'A' b'F' c

-- The rest of a list behind a prefix.
abbrev behind : List ℕ → List ℕ → Option (List ℕ)
behind [] rest = some rest
behind (p ∷ ps) [] = none
behind (p ∷ ps) (c ∷ cs) = let rest = behind ps cs in if p == c then rest else none

upper_hex : ℕ → Option (List ℕ) → Bool
unfolding is_upper_hex all
upper_hex n none = false
upper_hex n (some rest) = all is_upper_hex rest && length rest == n

-- `re.fullmatch(r"SRQ-[0-9A-F]{32}", text)`
unfoldable pub is_start_request : String → Bool
unfolding upper_hex
is_start_request s = upper_hex 32 (behind (codes "SRQ-") (codes s))

-- `re.fullmatch(r"DEC-[0-9A-F]{32}", text)`
unfoldable pub is_decision_id : String → Bool
unfolding upper_hex
is_decision_id s = upper_hex 32 (behind (codes "DEC-") (codes s))
