-- ===== src/Prelude/Text.antt =====
-- Text literals as bytes.
use Prim.Native.Char.{code}
use Prim.Native.String.{String}
use mathlib.Core.List.{[], ◌∷◌}
use partymixrust.Prelude.Lists.{Bytes}

-- `b"..."` and `as_bytes` of an ASCII text.
abbrev pub ascii : String → Bytes
ascii String.[] = []
ascii (String.◌∷◌ c s) = code c ∷ ascii s
