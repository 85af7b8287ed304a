-- ===== src/Util/Fields.antt =====
-- `Separation` of ApolloUtil.c: a text is cut at every `ch`. A C string is the list of its bytes
-- before the terminator.
pub mod Split
use robot_server.Common.{ℕ, Bool, true, false, List, [], ◌∷◌, ◌++◌, length, ltb, ◌==◌}
use robot_server.Common.Outcome.{Outcome, ok, fault, ◌>>=◌, ◌>>◌, check}

-- `char ChArray[32]`
abbrev pub len_ch_array : ℕ
len_ch_array = 32

-- `pTable[*Count] = malloc(j+1); memcpy(pTable[*Count], ChArray, j+1)` with `j` characters stored:
-- it reads `ChArray[j]`.
unfoldable pub store_field : List ℕ → List (List ℕ) → Outcome (List (List ℕ))
store_field ch_array table = do
  check (ltb (length ch_array) len_ch_array)
  ok (table ++ (ch_array ∷ []))

-- The loop, with the `j` characters stored so far and the table filled so far.
unfoldable pub separation_loop : ℕ → List ℕ → List ℕ → List (List ℕ) → Outcome (List (List ℕ))
unfolding store_field
separation_loop ch [] ch_array table = store_field ch_array table
separation_loop ch (c ∷ sequence) ch_array table = elim (c == ch) [
  | true ↦ store_field ch_array table >>= separation_loop ch sequence []
  | false ↦
      check (ltb (length ch_array) len_ch_array)
      >> separation_loop ch sequence (ch_array ++ (c ∷ [])) table
]

unfoldable pub separation : ℕ → List ℕ → Outcome (List (List ℕ))
unfolding separation_loop
separation ch sequence = separation_loop ch sequence [] []
