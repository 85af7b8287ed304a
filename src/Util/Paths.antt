-- ===== src/Util/Paths.antt =====
-- `genBlockFileName`, `genBlockFilePathName` and `genAgpsFilePathName` of ApolloUtil.c, as built with
-- `DATA_SAVE_TYPE == DISTRBUTE_SAVE`. `sprintf` into an array of `cap` bytes also stores the
-- terminator.
use Prim.Native.Char.{code}
use Prim.Native.String.{String}
use robot_server.Common.{if◌then◌else◌, ◌==◌, ℕ, suc, List, [], ◌∷◌, ◌++◌, length, leb}
use robot_server.Common.Outcome.{Outcome, ok, ◌>>◌, check}

-- The bytes of an ASCII text.
abbrev pub codes : String → List ℕ
codes String.[] = []
codes (String.◌∷◌ c s) = code c ∷ codes s

-- Text and its terminator, stored into an array of `cap` bytes.
abbrev pub store_text : ℕ → List ℕ → Outcome (List ℕ)
store_text cap s = do check (leb (suc (length s)) cap); ok s

-- The C string in an array.
abbrev pub until_zero : List ℕ → List ℕ
until_zero [] = []
until_zero (c ∷ s) = let rest = until_zero s in if c == 0 then [] else c ∷ rest

unfoldable pub gen_block_file_name : List ℕ → List ℕ
gen_block_file_name sender = sender ++ codes ".dat"

unfoldable pub gen_block_file_path_name : List ℕ → List ℕ
gen_block_file_path_name filename = codes "/usr/RServer/block_data/" ++ filename

unfoldable pub gen_agps_file_path_name : List ℕ → List ℕ
gen_agps_file_path_name filename =
    codes "/usr/RServer/agps_data/" ++ (filename ++ codes "_agps.dat")
