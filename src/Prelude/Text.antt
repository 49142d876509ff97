-- ===== src/Prelude/Text.antt =====
-- A text literal of the source, as bytes.
use Prim.Native.String.{String}
use Prim.Native.Char.{code}
use mathlib.Core.List.{[], ◌∷◌}
use livio_ark.Prelude.Tests.{Bytes}

abbrev pub bytes : String → Bytes
bytes String.[] = []
bytes (String.◌∷◌ c s) = code c ∷ bytes s
