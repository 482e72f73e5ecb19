-- ===== src/Base/Ascii.antt =====
-- Literal texts of the C sources, as their bytes. Every one of them is ASCII.
use Prim.Native.Char.{code}
use Prim.Native.Nat.{ℕ}
use Prim.Native.String.{String}
use mathlib.Core.List.{List, [], ◌∷◌}

abbrev pub ascii : String → List ℕ
ascii String.[] = []
ascii (String.◌∷◌ first more) = code first ∷ ascii more
