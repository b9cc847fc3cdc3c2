-- ===== src/Base/Text.antt =====
-- `str.strip`, the emptiness test that follows it, and texts joined by colons.
use Prim.Native.Nat.{ℕ, zero, suc, ◌+◌, ◌-◌}
use Prim.Native.Char.{code}
use Prim.Native.String
use Prim.Native.String.{String}
use mathlib.Core.Path.{◌≡◌, refl, ap, ◌∙◌}
use mathlib.Core.List.{List, [], ◌∷◌, ◌++◌}
use native.Mathlib.Omega.{arith}
use text.Mathlib.TextEquality.{eq_iff}
use mathlib.Core.Bool.{Bool, true, false, true, false, ◌&&◌, ◌||◌}
use text.Mathlib.Text.{◌==◌}
use text.Mathlib.TextLemmas
use flowhunt_voicebot.Base.Tests.{leb, eqb, if◌then◌else◌}

-- The code points that `str.strip` removes, those of `str.isspace`.
is_space : ℕ → Bool
is_space c =
    (leb 9 c && leb c 13)
    || (leb 28 c && leb c 32)
    || eqb c 0x85
    || eqb c 0xa0
    || eqb c 0x1680
    || (leb 0x2000 c && leb c 0x200a)
    || eqb c 0x2028
    || eqb c 0x2029
    || eqb c 0x202f
    || eqb c 0x205f
    || eqb c 0x3000

strip_left : String → String
strip_left String.[] = String.[]
strip_left (String.◌∷◌ c s) =
    let rest = strip_left s in if is_space (code c) then rest else String.◌∷◌ c s

strip_right : String → String
strip_right String.[] = String.[]
strip_right (String.◌∷◌ c s) =
    let rest = strip_right s in if rest == "" && is_space (code c) then "" else String.◌∷◌ c rest

unfoldable pub strip : String → String
unfolding strip_left strip_right is_space
strip s = strip_right (strip_left s)

-- The code points of a text that are not white space, in their order.
unfoldable pub letters : String → List ℕ
unfolding is_space
letters String.[] = []
letters (String.◌∷◌ c s) = let rest = letters s in if is_space (code c) then rest else code c ∷ rest

pub letters-append : (a b : String) → letters (String.◌++◌ a b) ≡ letters a ++ letters b
unfolding letters
letters-append String.[] b = ap letters (TextLemmas.nil-append b)
letters-append (String.◌∷◌ c a) b =
    rw (TextLemmas.cons-append c a b) (ground (arith, letters-append a b))

letters-strip_left : (s : String) → letters (strip_left s) ≡ letters s
unfolding letters strip_left
letters-strip_left String.[] = refl
letters-strip_left (String.◌∷◌ c s) = ground (arith, letters-strip_left s)

letters-strip_right : (s : String) → letters (strip_right s) ≡ letters s
unfolding letters strip_right
letters-strip_right String.[] = refl
letters-strip_right (String.◌∷◌ c s) =
    ground (arith, letters-strip_right s, eq_iff (strip_right s) "")

-- Stripping a text takes only white space from it.
pub letters-strip : (s : String) → letters (strip s) ≡ letters s
unfolding strip
letters-strip s = letters-strip_right (strip_left s) ∙ letters-strip_left s

-- `not s.strip()`.
unfoldable pub is_blank : String → Bool
unfolding strip
is_blank s = strip s == ""

infixr 65 ◌+s◌
abbrev pub ◌+s◌ : String → String → String
◌+s◌ = String.◌++◌

-- `len(text)`
unfoldable pub text_length : String → ℕ
text_length String.[] = 0
text_length (String.◌∷◌ c s) = suc (text_length s)

text_drop : ℕ → String → String
text_drop zero s = s
text_drop (suc n) String.[] = ""
text_drop (suc n) (String.◌∷◌ c s) = text_drop n s

-- `text[-n:]`, for a numeral n over 0.
unfoldable pub last_text : ℕ → String → String
unfolding text_length text_drop
last_text n s = text_drop (text_length s - n) s

-- `f"{a}:{b}"`.
unfoldable pub join_colon : String → String → String
join_colon a b = a +s (":" +s b)

-- Joining by colons is associative, so the boundaries of the parts are lost.
pub join_colon_assoc :
    (a b c : String) → join_colon (join_colon a b) c ≡ join_colon a (join_colon b c)
unfolding join_colon
join_colon_assoc a b c =
    TextLemmas.append_assoc a (":" +s b) (":" +s c)
    ∙ ap (◌+s◌ a) (TextLemmas.append_assoc ":" b (":" +s c))

-- The part of `str.lower` that can produce an ASCII letter: A to Z, and the Kelvin sign.
lower_code : ℕ → ℕ
lower_code c = if leb b'A' c && leb c b'Z' then c + 32 else if eqb c 0x212a then b'k' else c

-- `s.lower() == word`, for a word in lower-case ASCII.
unfoldable pub lower_is : String → String → Bool
unfolding lower_code
lower_is String.[] String.[] = true
lower_is (String.◌∷◌ c s) (String.◌∷◌ d w) = eqb (lower_code (code c)) (code d) && lower_is s w
lower_is _ _ = false
