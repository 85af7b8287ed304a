-- ===== src/Pool/Take.antt =====
-- `get_connection_from_pool`: which connection it hands out.
use robot_server.Common.{
  ℕ, suc, ◌≡◌, ◌⊎◌, inl, inr, refl, ap, Bool, true, false, Option, none, some, List, [], ◌∷◌, ◌++◌,
  All,
}
use robot_server.Pool.{
  ConnectionType, connect_close, connect_on, connect_off, MySqlConnectionItem, MySqlConnectionPool,
  Attempt, connect_item, take_item, get_connection_from_pool,
}

abbrev pub is_off : ConnectionType → Bool
is_off connect_close = false
is_off connect_on = false
is_off connect_off = true

abbrev pub NoneOff : List MySqlConnectionItem → Type 0
NoneOff = All (λ item. is_off item.status ≡ false)

abbrev refresh_item : Attempt → ConnectionType → MySqlConnectionItem → MySqlConnectionItem
refresh_item a connect_close item = connect_item a item
refresh_item a connect_on item = item
refresh_item a connect_off item = item

-- The items that are passed over: those that are closed are connected.
abbrev pub refresh : (ℕ → Attempt) → ℕ → List MySqlConnectionItem → List MySqlConnectionItem
refresh attempt i [] = []
refresh attempt i (item ∷ items) =
    refresh_item (attempt i) item.status item ∷ refresh attempt (suc i) items

-- The first item that is off, and the items behind a call that takes it.
pub record IsFirst (attempt : ℕ → Attempt) (i : ℕ) (items items' : List MySqlConnectionItem)
    (conn : Option ℕ) : Type 0 where
  pub before : List MySqlConnectionItem
  pub item : MySqlConnectionItem
  pub after : List MySqlConnectionItem
  pub split : items ≡ before ++ (item ∷ after)
  pub passed : NoneOff before
  pub status : item.status ≡ connect_off
  pub conn_lem : conn ≡ item.conn
  pub items_lem : items' ≡ refresh attempt i before ++ (record item { status = connect_on } ∷ after)

abbrev IsTaken :
    (ℕ → Attempt)
    → ℕ
    → List MySqlConnectionItem
    → Option (Option ℕ) × List MySqlConnectionItem
    → Type 0
IsTaken attempt i items r =
    (NoneOff items × (r ≡ (none, refresh attempt i items)))
    ⊎ ((conn : Option ℕ) × (items' : List MySqlConnectionItem) × (r ≡ (some conn, items'))
        × IsFirst attempt i items items' conn)

IsFirst-cons :
    (attempt : ℕ → Attempt) (i : ℕ) (x : MySqlConnectionItem)
    {items items' : List MySqlConnectionItem} {conn : Option ℕ}
    → is_off x.status ≡ false
    → IsFirst attempt (suc i) items items' conn
    → IsFirst attempt i (x ∷ items) (refresh_item (attempt i) x.status x ∷ items') conn
IsFirst-cons attempt i x off f = record {
  before = x ∷ f.before;
  item = f.item;
  after = f.after;
  split = ap (λ xs. x ∷ xs) f.split;
  passed = (off, f.passed);
  status = f.status;
  conn_lem = f.conn_lem;
  items_lem = ap (λ xs. refresh_item (attempt i) x.status x ∷ xs) f.items_lem;
}

IsTaken-cons :
    (attempt : ℕ → Attempt) (i : ℕ) (x : MySqlConnectionItem) (items : List MySqlConnectionItem)
    → is_off x.status ≡ false
    → IsTaken attempt (suc i) items (take_item attempt (suc i) items)
    → IsTaken attempt i (x ∷ items) (
      (take_item attempt (suc i) items).0,
      refresh_item (attempt i) x.status x ∷ (take_item attempt (suc i) items).1,
    )
IsTaken-cons attempt i x items off (inl (passed, e)) = inl ((off, passed), rw e refl)
IsTaken-cons attempt i x items off (inr (conn, items', e, f)) =
    inr (
      conn,
      refresh_item (attempt i) x.status x ∷ items',
      rw e refl,
      IsFirst-cons attempt i x off f,
    )

take_at :
    (attempt : ℕ → Attempt) (i : ℕ) (conn : Option ℕ) (st : ConnectionType)
    (items : List MySqlConnectionItem)
    → IsTaken attempt (suc i) items (take_item attempt (suc i) items)
    → IsTaken attempt i
        (record { conn = conn; status = st } ∷ items)
        (take_item attempt i (record { conn = conn; status = st } ∷ items))
unfolding take_item
take_at attempt i conn connect_close items rest = IsTaken-cons attempt i _ items refl rest
take_at attempt i conn connect_on items rest = IsTaken-cons attempt i _ items refl rest
take_at attempt i conn connect_off items rest = inr (
  conn,
  record { conn = conn; status = connect_on } ∷ items,
  refl,
  record {
    before = [];
    item = record { conn = conn; status = connect_off };
    after = items;
    split = refl;
    passed = tt;
    status = refl;
    conn_lem = refl;
    items_lem = refl;
  },
)

pub take_item_lem :
    (attempt : ℕ → Attempt) (i : ℕ) (items : List MySqlConnectionItem)
    → IsTaken attempt i items (take_item attempt i items)
unfolding take_item
take_item_lem attempt i [] = inl (tt, refl)
take_item_lem attempt i (x ∷ items) =
    take_at attempt i x.conn x.status items (take_item_lem attempt (suc i) items)

-- A call for a connection hands out the first one that is off, and marks it, or none where none is
-- off; on its way it connects those items that are closed, which it does not hand out. The mutex is
-- free.
pub get_connection_from_pool_lem :
    (attempt : ℕ → Attempt) (p : MySqlConnectionPool)
    → p.pool_lock ≡ false
    → (NoneOff p.conn_queue
        × (get_connection_from_pool attempt p
            ≡ some (none, record p { conn_queue = refresh attempt 0 p.conn_queue })))
      ⊎ ((conn : Option ℕ) × (items : List MySqlConnectionItem) × (get_connection_from_pool attempt
              p
            ≡ some (conn, record p { conn_queue = items }))
          × IsFirst attempt 0 p.conn_queue items conn)
unfolding get_connection_from_pool
get_connection_from_pool_lem attempt p free = elim (take_item_lem attempt 0 p.conn_queue) [
  | inl (passed, e) ↦ inl (passed, rw (e, free) refl)
  | inr (conn, items, e, f) ↦ inr (conn, items, rw (e, free) refl, f)
]
