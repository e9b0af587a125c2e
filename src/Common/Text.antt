-- ===== src/Common/Text.antt =====
-- Texts: splits at a separator and prefixes, over the native strings.
use Prim.Native.Nat.{ℕ, zero, suc, ◌+◌, ◌-◌, ◌/◌, ◌%◌, compare, Ordering}
use Prim.Native.Char.{Char, code}
use Prim.Native.String.{String, ◌++◌, count}
use mathlib.Core.Path.{◌≡◌, refl}
use mathlib.Core.Bool.{Bool, true, false, ◌||◌, ◌&&◌}
use mathlib.Core.List.{List, [], ◌∷◌, ◌++◌ as ◌++ᴸ◌}
use mathlib.Core.Option.{Option, none, some}
use native.Mathlib.Omega.{arith}
use text.Mathlib.Text.{◌==◌}
use text.Mathlib.TextLemmas.{nil-append, cons-append}
use package.karpenter_provider_ssh.Common.Tests.{eqb, eqb_refl, leb, ltb, if◌then◌else◌}

-- `strings.CutPrefix`: what follows the prefix, if it is there.
unfoldable pub cut_prefix : String → String → Option String
cut_prefix String.[] s = some s
cut_prefix (String.◌∷◌ c p) String.[] = none
cut_prefix (String.◌∷◌ c p) (String.◌∷◌ d s) =
    let rest = cut_prefix p s in if eqb (code c) (code d) then rest else none

abbrev push_front : Char → Option (String × String) → Option (String × String)
push_front c none = none
push_front c (some (before, after)) = some (String.◌∷◌ c before, after)

-- `strings.Cut` at a one-byte separator: the parts before and after its first occurrence.
unfoldable pub cut : ℕ → String → Option (String × String)
cut k String.[] = none
cut k (String.◌∷◌ c s) =
    let rest = push_front c (cut k s) in if eqb (code c) k then some ("", s) else rest

-- Whether a byte occurs in a text.
unfoldable pub contains_byte : ℕ → String → Bool
contains_byte k String.[] = false
contains_byte k (String.◌∷◌ c s) = eqb (code c) k || contains_byte k s

-- `[]byte(s)`: the UTF-8 encoding of a text.
utf8 : ℕ → List ℕ
utf8 n =
    if ltb n 0x80
    then n ∷ []
    else if ltb n 0x800
    then (0xc0 + n / 64) ∷ (0x80 + n % 64) ∷ []
    else if ltb n 0x10000
    then (0xe0 + n / 4096) ∷ (0x80 + n / 64 % 64) ∷ (0x80 + n % 64) ∷ []
    else (0xf0 + n / 262144) ∷ (0x80 + n / 4096 % 64) ∷ (0x80 + n / 64 % 64) ∷ (0x80 + n % 64) ∷ []

unfoldable pub bytes : String → List ℕ
unfolding utf8
bytes String.[] = []
bytes (String.◌∷◌ c s) = utf8 (code c) ++ᴸ bytes s

-- `strings.Contains`
unfoldable pub contains : String → String → Bool
unfolding cut_prefix
contains part String.[] = elim (cut_prefix part "") [ none ↦ false | some rest ↦ true ]
contains part (String.◌∷◌ c s) =
    contains part s || elim (cut_prefix part (String.◌∷◌ c s)) [ none ↦ false | some rest ↦ true ]

-- `strings.ReplaceAll`, from left to right: `skip` characters still belong to the last match. An
-- empty `old` is replaced nowhere, which no caller asks for.
unfoldable pub replace_from : String → String → ℕ → String → String
unfolding cut_prefix
replace_from old new skip String.[] = ""
replace_from old new (suc skip) (String.◌∷◌ c s) = replace_from old new skip s
replace_from old new zero (String.◌∷◌ c s) =
    let here = cut_prefix old (String.◌∷◌ c s) in
    let matched = new ++ replace_from old new (count old - 1) s in
    let passed = String.◌∷◌ c (replace_from old new zero s) in
    elim here [ none ↦ passed | some rest ↦ matched ]

unfoldable pub replace_all : String → String → String → String
unfolding replace_from
replace_all old new s = replace_from old new 0 s

letter : ℕ → String → Char → Char
letter n String.[] c = c
letter zero (String.◌∷◌ d s) c = d
letter (suc n) (String.◌∷◌ d s) c = letter n s c

-- `strings.ToUpper` on the ASCII letters, the only ones that the key of a secret may hold.
unfoldable pub upper_char : Char → Char
unfolding letter
upper_char c =
    if leb b'a' (code c) && leb (code c) b'z'
    then letter (code c - b'a') "ABCDEFGHIJKLMNOPQRSTUVWXYZ" c
    else c

unfoldable pub map_text : (Char → Char) → String → String
map_text f String.[] = ""
map_text f (String.◌∷◌ c s) = String.◌∷◌ (f c) (map_text f s)

-- `strings.Compare(s, t) <= 0`
unfoldable pub text_le : String → String → Bool
text_le String.[] t = true
text_le (String.◌∷◌ c s) String.[] = false
text_le (String.◌∷◌ c s) (String.◌∷◌ d t) =
    let rest = text_le s t in
    elim (compare (code c) (code d)) [
      | Ordering.lt ↦ true
      | Ordering.gt ↦ false
      | Ordering.eq ↦ rest
    ]

pub text_le_total : (s t : String) → text_le s t ≡ false → text_le t s ≡ true
unfolding text_le
text_le_total String.[] t h = cc
text_le_total (String.◌∷◌ c s) String.[] h = refl
text_le_total (String.◌∷◌ c s) (String.◌∷◌ d t) h = ground (arith, text_le_total s t)

pub text_le_trans : (s t u : String) → text_le s t ≡ true → text_le t u ≡ true → text_le s u ≡ true
unfolding text_le
text_le_trans String.[] t u h k = refl
text_le_trans (String.◌∷◌ c s) String.[] u h k = cc
text_le_trans (String.◌∷◌ c s) (String.◌∷◌ d t) String.[] h k = cc
text_le_trans (String.◌∷◌ c s) (String.◌∷◌ d t) (String.◌∷◌ e u) h k =
    ground (arith, text_le_trans s t u)

pub cut_prefix-append : (p s : String) → cut_prefix p (p ++ s) ≡ some s
unfolding cut_prefix
cut_prefix-append String.[] s = rw nil-append
cut_prefix-append (String.◌∷◌ c p) s =
    rw (cons-append, cut_prefix) (rw (eqb_refl (code c)) (cut_prefix-append p s))

-- A separator that the first part does not hold is found behind it.
pub cut-append :
    (k : ℕ) (c : Char) (p s : String)
    → code c ≡ k
    → contains_byte k p ≡ false
    → cut k (p ++ String.◌∷◌ c s) ≡ some (p, s)
unfolding cut contains_byte
cut-append k c String.[] s e h = rw (nil-append, cut) (ground arith)
cut-append k c (String.◌∷◌ d p) s e h = rw (cons-append, cut) (ground (arith, cut-append k c p s e))

-- `strings.HasSuffix`
unfoldable pub has_suffix : String → String → Bool
has_suffix suffix String.[] = suffix == ""
has_suffix suffix (String.◌∷◌ c s) = suffix == String.◌∷◌ c s || has_suffix suffix s
