-- ===== src/Pool/Return.antt =====
-- `return_connection_to_pool`: what becomes of a connection that comes back.
use robot_server.Common.{
  Option-cases, Bool-cases, ==_iff, ℕ, ◌≡◌, inl, inr, refl, sym, ap, ◌∙◌, true, false, Option, none,
  some, List, [], ◌∷◌, ◌++◌, ◌==◌, All, ==_refl,
}
use mathlib.Core.Path.{subst}
use robot_server.Common.Outcome.{Outcome, ok, fault, ◌>>=◌}
use robot_server.Pool.{
  connect_on, connect_off, MySqlConnectionItem, MySqlConnectionPool, Attempt, return_item, Returned,
  waits, returned_ok, noexist, put_back, return_connection_to_pool, get_connection_from_pool,
}
use robot_server.Pool.Take.{NoneOff, is_off, refresh, IsFirst, get_connection_from_pool_lem}

-- The items are connected, with other connections.
abbrev pub Others : ℕ → List MySqlConnectionItem → Type 0
Others id = All (λ item. (c : ℕ) × (item.conn ≡ some c) × ((id == c) ≡ false))

return_found :
    (id : ℕ) (before : List MySqlConnectionItem) (item : MySqlConnectionItem)
    (after : List MySqlConnectionItem)
    → Others id before
    → item.conn ≡ some id
    → return_item id (before ++ (item ∷ after))
      ≡ ok (some (before ++ (record item { status = connect_off } ∷ after)))
unfolding return_item
return_found id [] item after others e =
    rw (e, return_item, ==_refl id)
      (ap {A = Option ℕ} (λ c. ok (some (record { conn = c; status = connect_off } ∷ after))) e)
return_found id (x ∷ before) item after ((c, at, ne), others) e =
    rw (at, return_item, ne, return_found id before item after others e)
      (ap {A = Option ℕ}
        (λ o. ok (
          some (
            record { conn = o; status = x.status }
            ∷ (before ++ (record item { status = connect_off } ∷ after)))))
        at)

return_missing :
    (id : ℕ) (items : List MySqlConnectionItem) → Others id items → return_item id items ≡ ok none
unfolding return_item
return_missing id [] others = refl
return_missing id (x ∷ items) ((c, at, ne), others) =
    rw (at, return_item, ne, return_missing id items others) refl

return_null :
    (id : ℕ) (before : List MySqlConnectionItem) (item : MySqlConnectionItem)
    (after : List MySqlConnectionItem)
    → Others id before
    → item.conn ≡ none
    → return_item id (before ++ (item ∷ after)) ≡ fault
unfolding return_item
return_null id [] item after others e = rw (e, return_item) refl
return_null id (x ∷ before) item after ((c, at, ne), others) e =
    rw (at, return_item, ne, return_null id before item after others e) refl

-- Behind items that are none of them off, an item that is.
not_NoneOff :
    (xs : List MySqlConnectionItem) (item : MySqlConnectionItem) (ys : List MySqlConnectionItem)
    → is_off item.status ≡ true
    → NoneOff (xs ++ (item ∷ ys))
    → ⊥
not_NoneOff [] item ys on (off, rest) = absurd (let e : true ≡ false = sym on ∙ off in cc)
not_NoneOff (x ∷ xs) item ys on (off, rest) = not_NoneOff xs item ys on rest

module _ (attempt : ℕ → Attempt) (p : MySqlConnectionPool) (free : p.pool_lock ≡ false)
    (items : List MySqlConnectionItem) (id : ℕ)
    (f : IsFirst attempt 0 p.conn_queue items (some id)) where
  abbrev taken : MySqlConnectionPool
  taken = record p { conn_queue = items }

  -- The items behind the return.
  abbrev pub given_back : List MySqlConnectionItem
  given_back = refresh attempt 0 f.before ++ (record f.item { status = connect_off } ∷ f.after)

  given_back_lem :
      Others id (refresh attempt 0 f.before)
      → return_connection_to_pool id taken ≡ ok (returned_ok (record p { conn_queue = given_back }))
  unfolding return_connection_to_pool put_back
  given_back_lem others =
      let back : return_item id
            (refresh attempt 0 f.before ++ (record f.item { status = connect_on } ∷ f.after))
          ≡ ok (some given_back) =
        return_found id (refresh attempt 0 f.before) (record f.item { status = connect_on }) f.after
          others (sym f.conn_lem) in
      rw (free, f.items_lem, back) refl

  -- A connection that comes back can be taken again: the call that returns a connection which was
  -- handed out succeeds and marks it as off, and the next call for a connection does not come away
  -- without an item. The mutex is free, and the items that were passed over are connected, with other
  -- connections.
  pub return-get :
      (next : ℕ → Attempt)
      → Others id (refresh attempt 0 f.before)
      → (return_connection_to_pool id (record p { conn_queue = items })
          ≡ ok (returned_ok (record p { conn_queue = given_back })))
        × ((conn : Option ℕ) × (items' : List MySqlConnectionItem) × (get_connection_from_pool next
                (record p { conn_queue = given_back })
              ≡ some (conn, record p { conn_queue = items' }))
            × IsFirst next 0 given_back items' conn)
  return-get next others = (
    given_back_lem others,
    elim (get_connection_from_pool_lem next (record p { conn_queue = given_back }) free) [
      | inl (passed, e) ↦ absurd (
          not_NoneOff (refresh attempt 0 f.before) (record f.item { status = connect_off }) f.after
            refl passed)
      | inr found ↦ found
    ],
  )

-- The items up to the first one that has the connection, or none.
data IsSearched (id : ℕ) (items : List MySqlConnectionItem) : Type 0 where
  hit :
      (before : List MySqlConnectionItem) (item : MySqlConnectionItem)
      (after : List MySqlConnectionItem)
      → items ≡ before ++ (item ∷ after)
      → Others id before
      → item.conn ≡ some id
      → IsSearched id items
  null_before :
      (before : List MySqlConnectionItem) (item : MySqlConnectionItem)
      (after : List MySqlConnectionItem)
      → items ≡ before ++ (item ∷ after)
      → Others id before
      → item.conn ≡ none
      → IsSearched id items
  unknown : Others id items → IsSearched id items

IsSearched-cons :
    (id c : ℕ) (x : MySqlConnectionItem) (items : List MySqlConnectionItem)
    → x.conn ≡ some c
    → (id == c) ≡ false
    → IsSearched id items
    → IsSearched id (x ∷ items)
IsSearched-cons id c x items at ne (hit before item after split others e) =
    hit (x ∷ before) item after (ap (λ xs. x ∷ xs) split) ((c, at, ne), others) e
IsSearched-cons id c x items at ne (null_before before item after split others e) =
    null_before (x ∷ before) item after (ap (λ xs. x ∷ xs) split) ((c, at, ne), others) e
IsSearched-cons id c x items at ne (unknown others) = unknown ((c, at, ne), others)

search_items : (id : ℕ) (items : List MySqlConnectionItem) → IsSearched id items
search_items id [] = unknown tt
search_items id (x ∷ items) = elim (Option-cases x.conn) [
  | inl e ↦ null_before [] x items refl tt e
  | inr (c, e) ↦ elim (Bool-cases (id == c)) [
    | inl same ↦ hit [] x items refl tt (e ∙ ap some (sym ((==_iff id c).0 same)))
    | inr ne ↦ IsSearched-cons id c x items e ne (search_items id items)
  ]
]

-- How a return ends, for the connection `id` and the pool `p`; `attempt` and `other` are those of
-- later calls.
pub data IsReturned (id : ℕ) (p : MySqlConnectionPool) (attempt : ℕ → Attempt) (other : ℕ)
    : Outcome Returned → Type 0 where
  marked_off :
      (before : List MySqlConnectionItem) (item : MySqlConnectionItem)
      (after : List MySqlConnectionItem)
      → p.conn_queue ≡ before ++ (item ∷ after)
      → Others id before
      → item.conn ≡ some id
      → IsReturned id p attempt other (
          ok (
            returned_ok
              (record p { conn_queue = before ++ (record item { status = connect_off } ∷ after) })))
  through_null :
      (before : List MySqlConnectionItem) (item : MySqlConnectionItem)
      (after : List MySqlConnectionItem)
      → p.conn_queue ≡ before ++ (item ∷ after)
      → Others id before
      → item.conn ≡ none
      → IsReturned id p attempt other fault
  stays_locked :
      (p' : MySqlConnectionPool)
      → Others id p.conn_queue
      → get_connection_from_pool attempt p' ≡ none
      → return_connection_to_pool other p' ≡ ok waits
      → IsReturned id p attempt other (ok (noexist p'))

free_return :
    (id : ℕ) (p : MySqlConnectionPool)
    → p.pool_lock ≡ false
    → return_connection_to_pool id p
      ≡ (return_item id p.conn_queue >>= λ found. ok (put_back p found))
unfolding return_connection_to_pool
free_return id p free = rw free refl

-- A return ends in one of three ways: the first item with the connection is marked as off; or an item
-- before it has no connection, and is read through a null pointer; or all items are connected, with
-- other connections, and the call leaves the pool blocked for ever, as every later call waits. The
-- mutex is free.
pub return_connection_to_pool_lem :
    (id other : ℕ) (p : MySqlConnectionPool) (attempt : ℕ → Attempt)
    → p.pool_lock ≡ false
    → IsReturned id p attempt other (return_connection_to_pool id p)
unfolding put_back return_connection_to_pool get_connection_from_pool
return_connection_to_pool_lem id other p attempt free =
    let ends =
      λ (x : Outcome (Option (List MySqlConnectionItem))) (e : return_item id p.conn_queue ≡ x).
        free_return id p free ∙ ap (λ y. y >>= λ found. ok (put_back p found)) e in
    elim (search_items id p.conn_queue) [
      | hit before item after split others e ↦
          subst (IsReturned id p attempt other)
            (sym (ends _ (ap (return_item id) split ∙ return_found id before item after others e)))
            (marked_off before item after split others e)
      | null_before before item after split others e ↦
          subst (IsReturned id p attempt other)
            (sym (ends _ (ap (return_item id) split ∙ return_null id before item after others e)))
            (through_null before item after split others e)
      | unknown others ↦
          subst (IsReturned id p attempt other)
            (sym (ends _ (return_missing id p.conn_queue others)))
            (stays_locked (record p { pool_lock = true }) others refl refl)
    ]
