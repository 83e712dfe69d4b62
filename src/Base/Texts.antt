-- ===== src/Base/Texts.antt =====
-- Python's texts as lists of code points. The tables of Unicode are the interpreter's: the model
-- takes what it uses of them.
use Prim.Native.Nat.{ℕ}
use Prim.Native.Char.{code}
use Prim.Native.String.{String}
use mathlib.Core.Bool.{Bool}
use mathlib.Core.Option.{Option}
use mathlib.Core.List.{List, [], ◌∷◌, reverse}
use production_rag.Base.Tests.{if◌then◌else◌}

abbrev pub Text : Type 0
Text = List ℕ

-- A literal of the source.
abbrev pub text : String → Text
text String.[] = []
text (String.◌∷◌ c s) = code c ∷ text s

-- `str.isspace` and the value of a decimal digit, of one character.
pub record Unicode : Type 0 where
  pub is_space : ℕ → Bool
  pub digit_value : ℕ → Option ℕ

unfoldable pub drop_while : (ℕ → Bool) → Text → Text
drop_while p [] = []
drop_while p (c ∷ s) = if p c then drop_while p s else c ∷ s

-- `str.strip`, over the test of the characters that it takes away.
unfoldable pub strip : (ℕ → Bool) → Text → Text
unfolding drop_while
strip p s = reverse (drop_while p (reverse (drop_while p s)))
