-- ===== src/Common/Text.antt =====
-- Texts that are only compared, such as addresses and hashes, are numbers; 0 is the empty text.
use Prim.Native.Nat.{ℕ, zero, suc}
use mathlib.Core.Bool.{Bool, true, false}

abbrev pub Text : Type 0
Text = ℕ

-- `!text`
abbrev pub is_blank : Text → Bool
is_blank zero = true
is_blank (suc _) = false
