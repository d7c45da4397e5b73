-- ===== src/Base/Text.antt =====
-- Literal text as bytes. The literals of the program are ASCII, where code points are the bytes.
use Prim.Native.Char.{code}
use Prim.Native.String.{String}
use mathlib.Core.List.{[], ◌∷◌}
use redis_rs_py.Base.Lists.{Bytes}

unfoldable pub utf8 : String → Bytes
utf8 String.[] = []
utf8 (String.◌∷◌ c s) = code c ∷ utf8 s
