-- ===== src/Common/Texts.antt =====
-- ASCII text literals of the program as bytes.
use Prim.Native.Char.{code}
use Prim.Native.String.{String}
use torrent_rust_cli.Common.{Bytes, [], ◌∷◌}

abbrev pub codes : String → Bytes
codes String.[] = []
codes (String.◌∷◌ c s) = code c ∷ codes s
