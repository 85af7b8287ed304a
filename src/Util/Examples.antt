-- ===== src/Util/Examples.antt =====
-- The functions of ApolloUtil.c on concrete texts, and their theorems applied.
use robot_server.Common.{
  ℕ, ◌*◌, ◌≡◌, ◌↔◌, refl, true, some, List, [], ◌∷◌, ◌++◌, arith, length, All, if◌then◌else◌,
}
use robot_server.Common.Int.{pos}
use robot_server.Common.Outcome.{ok, fault}
use robot_server.Util.Hex.{
  high_digit, low_digit, high_hextostring, low_hextostring, hextostring, stringtohex, digit_or_zero,
  pack_digits, from_hex, is_hex_digit, IsBcd,
}
use robot_server.Util.Hex.RoundTrip.{hextostring_lem, pack_digits-hextostring_iff}
use robot_server.Util.Fields.{separation, separation_loop, store_field}
use robot_server.Util.Fields.Split.{separation-join}
use robot_server.Util.Scan.{apollo_atoi}
use robot_server.Util.Scan.Laws.{has_space, apollo_atoi_lem}
use robot_server.Util.Paths.{codes}

abbrev device : List ℕ
device = 0x86 ∷ 0x18 ∷ 0x7A ∷ []

hextostring_device : hextostring device ≡ codes "86187A"
unfolding hextostring high_digit low_digit high_hextostring low_hextostring
hextostring_device = refl

-- The nibble `A` is lost.
pack_digits_device : pack_digits 3 (codes "86187A") ≡ ok (0x86 ∷ 0x18 ∷ 0x70 ∷ [])
unfolding pack_digits stringtohex digit_or_zero
pack_digits_device = refl

separation_command :
    separation b'_' (codes "65_1_8618") ≡ ok (codes "65" ∷ codes "1" ∷ codes "8618" ∷ [])
unfolding separation separation_loop store_field
separation_command = refl

hextostring_lem_example :
    (from_hex (hextostring device) ≡ device)
    × (length (hextostring device) ≡ 2 * 3)
    × All (λ c. is_hex_digit c ≡ true) (hextostring device)
hextostring_lem_example = hextostring_lem device (omega arith)

pack_digits-hextostring_iff_example :
    (pack_digits 3 (hextostring device ++ (0 ∷ [])) ≡ ok device) ↔ All IsBcd device
pack_digits-hextostring_iff_example = pack_digits-hextostring_iff device (0 ∷ []) (omega arith)

separation-join_example :
    separation b'_' (codes "65_1_8618") ≡ ok (codes "65" ∷ codes "1" ∷ codes "8618" ∷ [])
separation-join_example = separation-join b'_' (codes "65") (codes "1" ∷ codes "8618" ∷ []) (
  ((refl, (refl, tt)), omega arith),
  (((refl, tt), omega arith), (((refl, (refl, (refl, (refl, tt)))), omega arith), tt)),
)

apollo_atoi_lem_example :
    apollo_atoi (some (codes "42 7")) ≡ (if has_space (codes "42 7") then ok (pos 0) else fault)
apollo_atoi_lem_example = apollo_atoi_lem (codes "42 7")
