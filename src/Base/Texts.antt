-- ===== src/Base/Texts.antt =====
-- Texts put together.
use Prim.Native.String.{String}

abbrev pub append : String → String → String
append String.[] t = t
append (String.◌∷◌ c s) t = String.◌∷◌ c (append s t)
