-- ===== src/Base/Utf8.antt =====
-- utf8.ValidString of Go's unicode/utf8: the bytes that may follow a first byte, as ranges.
use Prim.Native.Nat.{ℕ}
use mathlib.Core.Bool.{Bool, true, false, ◌&&◌}
use mathlib.Core.Option.{Option, none, some}
use mathlib.Core.List.{List, [], ◌∷◌}
use mathlib.Core.Path.{◌≡◌, refl}
use mc.Base.Tests.{ltb, leb, ◌==◌, if◌then◌else◌}
use mc.Base.Strings.{Bytes}

abbrev Range : Type 0
Range = ℕ × ℕ

abbrev continuation : Range
continuation = (0x80, 0xbf)

-- The ranges of the bytes behind a first byte; `none` for a byte that begins no character.
followers : ℕ → Option (List Range)
followers c =
    if ltb c 0x80
    then some []
    else if ltb c 0xc2
    then none
    else if ltb c 0xe0
    then some (continuation ∷ [])
    else if c == 0xe0
    then some ((0xa0, 0xbf) ∷ continuation ∷ [])
    else if c == 0xed
    then some ((0x80, 0x9f) ∷ continuation ∷ [])
    else if ltb c 0xf0
    then some (continuation ∷ continuation ∷ [])
    else if c == 0xf0
    then some ((0x90, 0xbf) ∷ continuation ∷ continuation ∷ [])
    else if ltb c 0xf4
    then some (continuation ∷ continuation ∷ continuation ∷ [])
    else if c == 0xf4
    then some ((0x80, 0x8f) ∷ continuation ∷ continuation ∷ [])
    else none

valid_from : Bytes → List Range → Bool
unfolding followers
valid_from [] [] = true
valid_from [] (r ∷ pending) = false
valid_from (c ∷ s) ((lo, hi) ∷ pending) = (leb lo c && leb c hi) && valid_from s pending
valid_from (c ∷ s) [] = elim (followers c) [ none ↦ false | some pending ↦ valid_from s pending ]

unfoldable pub valid_string : Bytes → Bool
unfolding valid_from
valid_string s = valid_from s []

a_umlaut : valid_string (0xc3 ∷ 0xa4 ∷ b'/' ∷ 0xe2 ∷ 0x82 ∷ 0xac ∷ []) ≡ true
unfolding valid_string
a_umlaut = refl

cut_short : valid_string (b'a' ∷ 0xc3 ∷ []) ≡ false
unfolding valid_string
cut_short = refl

surrogate : valid_string (0xed ∷ 0xa0 ∷ 0x80 ∷ []) ≡ false
unfolding valid_string
surrogate = refl
