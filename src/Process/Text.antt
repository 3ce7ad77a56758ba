-- ===== src/Process/Text.antt =====
-- The texts of the C sources as bytes.
use Prim.Native.Char.{code}
use Prim.Native.String.{String}
use linux_veda_4sensor_tcp_c.Prelude.{ℕ, List, [], ◌∷◌}

-- `String` has its own `[]` and `∷`.
abbrev pub bytes_of : String → List ℕ
bytes_of String.[] = []
bytes_of (String.◌∷◌ c s) = code c ∷ bytes_of s
