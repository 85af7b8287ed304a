-- ===== src/Util/Scan.antt =====
-- `apollo_atoi` and `apollo_strcmp` of ApolloUtil.c. A C string is the list of its bytes before the
-- terminator; a read behind the terminator is a fault.
pub mod Laws
use robot_server.Common.{
  ℕ, zero, suc, ◌+◌, ◌-◌, ◌*◌, ◌^◌, Bool, true, false, ◌&&◌, ◌||◌, Option, none, some, List, [],
  ◌∷◌, ltb, leb, ◌==◌, if◌then◌else◌,
}
use robot_server.Common.Int.{ℤ, pos, negsuc}
use robot_server.Common.Bytes.{Mem}
use robot_server.Common.Outcome.{Outcome, ok, fault, ◌>>=◌, ◌>>◌, check}

-- `isspace` in the C locale.
unfoldable pub isspace : ℕ → Bool
isspace c = c == b' ' || (leb 9 c && leb c 13)

-- `while (isspace(*pstr) == 0) pstr++;`
unfoldable pub skip_to_space : List ℕ → Outcome (List ℕ)
skip_to_space [] = fault
skip_to_space (c ∷ pstr) = elim (isspace c) [ true ↦ ok (c ∷ pstr) | false ↦ skip_to_space pstr ]

-- `while (*pstr >= '0' && *pstr <= '9') ...`; a signed overflow is a fault.
pub read_digits : ℕ → List ℕ → Outcome ℕ
read_digits ret_integer [] = ok ret_integer
read_digits ret_integer (c ∷ pstr) = elim (leb b'0' c && leb c b'9') [
  | true ↦
      check (ltb (ret_integer * 10 + c) (2 ^ 31)) >> read_digits (ret_integer * 10 + c - b'0') pstr
  | false ↦ ok ret_integer
]

-- `Integer_sign * Ret_Integer`
abbrev pub signed : Bool → ℕ → ℤ
signed true n = if n == 0 then pos 0 else negsuc (n - 1)
signed false n = pos n

-- From the sign on.
pub read_signed : List ℕ → Outcome ℤ
unfolding read_digits
read_signed [] = do n ← read_digits 0 []; ok (signed false n)
read_signed (c ∷ pstr) =
    let number = if c == b'-' || c == b'+' then pstr else c ∷ pstr in
    do n ← read_digits 0 number; ok (signed (c == b'-') n)

-- `none` is the null pointer.
unfoldable pub apollo_atoi : Option (List ℕ) → Outcome ℤ
unfolding skip_to_space read_signed
apollo_atoi none = ok (pos 0)
apollo_atoi (some pstr) = skip_to_space pstr >>= read_signed

-- The first `n` characters of two arrays, compared.
unfoldable pub apollo_strcmp : Mem → ℕ → Mem → ℕ → ℕ → Bool
apollo_strcmp str1 p str2 q zero = true
apollo_strcmp str1 p str2 q (suc n) = str1 p == str2 q && apollo_strcmp str1 (suc p) str2 (suc q) n
