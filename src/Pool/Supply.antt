-- ===== src/Pool/Supply.antt =====
-- A pool in which every item has its connection, as the list of the connections with a mark for those
-- that are free.
use robot_server.Common.{
  ℕ, zero, suc, ◌≡◌, refl, ap, Bool, true, false, Option, none, some, List, [], ◌∷◌, ◌==◌, arith,
  All, ==_refl,
}
use robot_server.Common.Outcome.{ok}
use robot_server.Pool.{
  connect_on, connect_off, MySqlConnectionItem, MySqlConnectionPool, Attempt, connected,
  connect_item, connection_pool_size, init_items, init_mysql_pool, take_item,
  get_connection_from_pool, return_item,
}
use robot_server.Pool.Query.{Rounds, wait_connection}

abbrev pub Supply : Type 0
Supply = List (ℕ × Bool)

abbrev pub items_of : Supply → List MySqlConnectionItem
items_of [] = []
items_of ((c, true) ∷ l) = record { conn = some c; status = connect_off } ∷ items_of l
items_of ((c, false) ∷ l) = record { conn = some c; status = connect_on } ∷ items_of l

abbrev pub pool_of : Supply → MySqlConnectionPool
pool_of l = record { conn_queue = items_of l; pool_lock = false }

abbrev pub count_free : Supply → ℕ
count_free [] = 0
count_free ((c, true) ∷ l) = suc (count_free l)
count_free ((c, false) ∷ l) = count_free l

-- No connection of the list has the id.
abbrev pub Apart : ℕ → Supply → Type 0
Apart c = All (λ x. (x.0 == c) ≡ false)

abbrev pub Distinct : Supply → Type 0
Distinct [] = Unit
Distinct ((c, free) ∷ l) = Apart c l × Distinct l

-- The supply behind a call that takes a connection.
pub record IsTaken (l l' : Supply) (id : ℕ) : Type 0 where
  pub take_lem :
      (attempt : ℕ → Attempt) (i : ℕ)
      → take_item attempt i (items_of l) ≡ (some (some id), items_of l')
  pub apart : (c : ℕ) → Apart c l → (id == c) ≡ false
  pub return_lem : Distinct l → return_item id (items_of l') ≡ ok (some (items_of l))
  pub count_lem : count_free l ≡ suc (count_free l')

IsTaken-cons :
    (c : ℕ) (l l' : Supply) (id : ℕ)
    → IsTaken l l' id
    → IsTaken ((c, false) ∷ l) ((c, false) ∷ l') id
unfolding take_item return_item
IsTaken-cons c l l' id t = record {
  take_lem = λ attempt i. rw (t.take_lem attempt (suc i)) refl;
  apart = λ d a. t.apart d a.1;
  return_lem = λ d. rw (return_item, t.apart c d.0, t.return_lem d.1) refl;
  count_lem = t.count_lem;
}

-- Where a connection is free, one is taken.
pub take_free :
    (l : Supply) (n : ℕ) → count_free l ≡ suc n → (id : ℕ) × (l' : Supply) × IsTaken l l' id
unfolding take_item return_item
take_free [] n e = absurd (omega arith)
take_free ((c, false) ∷ l) n e =
    let (id, l', t) = take_free l n e in (id, (c, false) ∷ l', IsTaken-cons c l l' id t)
take_free ((c, true) ∷ l) n e = (
  c,
  (c, false) ∷ l,
  record {
    take_lem = λ attempt i. refl;
    apart = λ d a. a.0;
    return_lem = λ d. rw (return_item, ==_refl c) refl;
    count_lem = refl;
  },
)

pub take_none :
    (attempt : ℕ → Attempt) (i : ℕ) (l : Supply)
    → count_free l ≡ 0
    → take_item attempt i (items_of l) ≡ (none, items_of l)
unfolding take_item
take_none attempt i [] e = refl
take_none attempt i ((c, false) ∷ l) e = rw (take_none attempt (suc i) l e) refl
take_none attempt i ((c, true) ∷ l) e = absurd (omega arith)

get_at :
    (attempt : ℕ → Attempt) (l l' : Supply) (found : Option (Option ℕ))
    → take_item attempt 0 (items_of l) ≡ (found, items_of l')
    → get_connection_from_pool attempt (pool_of l)
      ≡ some (elim found [ some conn ↦ conn | none ↦ none ], pool_of l')
unfolding get_connection_from_pool
get_at attempt l l' found e =
    ap
      (λ (x : Option (Option ℕ) × List MySqlConnectionItem). some (
        elim x.0 [ some conn ↦ conn | none ↦ none ],
        record { conn_queue = x.1; pool_lock = false },
      ))
      e

-- Where none is free, the loop that waits for a connection never ends.
pub wait_none :
    (rounds : Rounds) (l : Supply) → count_free l ≡ 0 → wait_connection rounds (pool_of l) ≡ none
unfolding wait_connection
wait_none [] l e = refl
wait_none (attempt ∷ rounds) l e =
    rw (wait_connection, get_at attempt l l none (take_none attempt 0 l e)) (wait_none rounds l e)

pub wait_free :
    (attempt : ℕ → Attempt) (rounds : Rounds) (l l' : Supply) (id : ℕ)
    → IsTaken l l' id
    → wait_connection (attempt ∷ rounds) (pool_of l) ≡ some (id, pool_of l')
unfolding wait_connection
wait_free attempt rounds l l' id t =
    rw (wait_connection, get_at attempt l l' (some (some id)) (t.take_lem attempt 0)) refl

-- The supply that `init_mysql_pool` makes, where every attempt succeeds.
pub supply : (ℕ → ℕ) → ℕ → ℕ → Supply
supply thread_id zero i = []
supply thread_id (suc n) i = (thread_id i, true) ∷ supply thread_id n (suc i)

init_items-supply :
    (thread_id : ℕ → ℕ) (n i : ℕ)
    → init_items (λ j. connected (thread_id j)) n i ≡ items_of (supply thread_id n i)
unfolding init_items connect_item supply
init_items-supply thread_id zero i = refl
init_items-supply thread_id (suc n) i = rw (init_items-supply thread_id n (suc i)) refl

pub init_mysql_pool-supply :
    (thread_id : ℕ → ℕ)
    → init_mysql_pool (λ j. connected (thread_id j))
      ≡ pool_of (supply thread_id connection_pool_size 0)
unfolding init_mysql_pool
init_mysql_pool-supply thread_id = rw (init_items-supply thread_id connection_pool_size 0) refl

pub count_free-supply : (thread_id : ℕ → ℕ) (n i : ℕ) → count_free (supply thread_id n i) ≡ n
unfolding supply
count_free-supply thread_id zero i = refl
count_free-supply thread_id (suc n) i = rw (count_free-supply thread_id n (suc i)) refl
