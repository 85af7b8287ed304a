-- ===== src/Sql/Bindings.antt =====
-- What the loops of `Sql.Load` leave in a Redis server that stores strings.
use robot_server.Common.{
  ℕ, suc, ◌+◌, ◌≤◌, ◌≡◌, refl, ◌∙◌, true, Option, some, List, [], ◌∷◌, ◌++◌, arith, length,
  length-append, le→leb, if◌then◌else◌, All,
}
use robot_server.Common.Outcome.{ok}
use robot_server.Util.Paths.{codes}
use robot_server.Block.{eq_text}
use robot_server.Redis.Service.{IsStore, IsWord}
use robot_server.Redis.Keys.{after_set, set_key_toredis_lem}
use robot_server.Redis.Words.{IsWord-append}
use robot_server.Host.{Host}
use robot_server.Sql.Load.{two_columns, set_prefixed, load_users, load_relationships}

-- A row of the table of relationships, or of users: two words that fit the keys and the commands.
pub record IsRow (a b : List ℕ) : Type 0 where
  pub first : IsWord a
  pub second : IsWord b
  pub first_short : length a ≤ 16
  pub second_short : length b ≤ 17

abbrev pub columns : List (List ℕ × List ℕ) → List (List (Option (List ℕ)))
columns [] = []
columns ((a, b) ∷ rs) = (some a ∷ some b ∷ []) ∷ columns rs

abbrev pub AreRows : List (List ℕ × List ℕ) → Type 0
AreRows = All (λ r. IsRow r.0 r.1)

abbrev pub put : List ℕ → List ℕ → (List ℕ → Option (List ℕ)) → List ℕ → Option (List ℕ)
put k v f j = if eq_text k j then some v else f j

-- The keys and values behind the rows: the last row counts.
abbrev pub users_of : List (List ℕ × List ℕ) → (List ℕ → Option (List ℕ)) → List ℕ → Option (List ℕ)
users_of [] f = f
users_of ((id, name) ∷ rs) f = users_of rs (put (codes "U_" ++ name) id f)

abbrev pub bindings_of :
    List (List ℕ × List ℕ) → (List ℕ → Option (List ℕ)) → List ℕ → Option (List ℕ)
bindings_of [] f = f
bindings_of ((user, device) ∷ rs) f =
    bindings_of rs (put (codes "R_" ++ device) user (put (codes "RP_" ++ user) device f))

bindings_cong :
    (rs : List (List ℕ × List ℕ)) {f g : List ℕ → Option (List ℕ)}
    → ((j : List ℕ) → f j ≡ g j)
    → (j : List ℕ) → bindings_of rs f j ≡ bindings_of rs g j
bindings_cong [] e j = e j
bindings_cong ((user, device) ∷ rs) e j = bindings_cong rs (λ i. rw (e i) refl) j

users_cong :
    (rs : List (List ℕ × List ℕ)) {f g : List ℕ → Option (List ℕ)}
    → ((j : List ℕ) → f j ≡ g j)
    → (j : List ℕ) → users_of rs f j ≡ users_of rs g j
users_cong [] e j = e j
users_cong ((id, name) ∷ rs) e j = users_cong rs (λ i. rw (e i) refl) j

module _ (h : Host) (st : IsStore h.redis) where
  abbrev stored : List ℕ → List ℕ → h.redis.State → h.redis.State
  stored = after_set h.redis st

  set_prefixed_lem :
      (prefix key value : List ℕ) (s : h.redis.State)
      → IsWord prefix
      → IsWord key
      → IsWord value
      → length prefix + length key ≤ 19
      → length value ≤ 17
      → set_prefixed h prefix key value s ≡ ok (true, stored (prefix ++ key) value s)
  unfolding set_prefixed
  set_prefixed_lem prefix key value s hp hk hv short small = rw (
    le→leb (suc (length (prefix ++ key))) 20 (omega (arith, length-append prefix key)),
    set_key_toredis_lem h.redis st (prefix ++ key) value s (IsWord-append prefix key hp hk) hv
        (omega (arith, length-append prefix key)),
  )

  value_of-stored :
      (k v : List ℕ) (s : h.redis.State)
      → IsWord k
      → IsWord v
      → (j : List ℕ) → st.value_of (stored k v s) j ≡ put k v (st.value_of s) j
  unfolding after_set
  value_of-stored k v s hk hv j = st.set_value k v s j hk hv

  prefix_user : IsWord (codes "U_")
  prefix_user = (omega arith, (refl, (refl, tt)))

  prefix_phone : IsWord (codes "RP_")
  prefix_phone = (omega arith, (refl, (refl, (refl, tt))))

  prefix_device : IsWord (codes "R_")
  prefix_device = (omega arith, (refl, (refl, tt)))

  -- initUserAndDeviceRelationshipList puts every row of the table into Redis, both ways: behind it a key
  -- has the value of the last row that writes it, RP_ and the user's id that row's device, R_ and the
  -- device's id that row's user; any other key is as it was. The rows are words that fit the keys.
  pub load_relationships_lem :
      (rs : List (List ℕ × List ℕ)) (s : h.redis.State)
      → AreRows rs
      → (s' : h.redis.State) × (load_relationships h (columns rs) s ≡ ok s')
        × ((j : List ℕ) → st.value_of s' j ≡ bindings_of rs (st.value_of s) j)
  unfolding load_relationships two_columns
  load_relationships_lem [] s fits = (s, refl, λ j. refl)
  load_relationships_lem ((user, device) ∷ rs) s (r, fits) =
      let key = codes "RP_" ++ user in
      let key' = codes "R_" ++ device in
      let word = IsWord-append (codes "RP_") user prefix_phone r.first in
      let word' = IsWord-append (codes "R_") device prefix_device r.second in
      let s₁ = stored key device s in
      let s₂ = stored key' user s₁ in
      let (s', runs, value) = load_relationships_lem rs s₂ fits in
      (
        s',
        rw
            (
              set_prefixed_lem (codes "RP_") user device s prefix_phone r.first r.second
                  (omega (arith, r.first_short)) r.second_short,
              set_prefixed_lem (codes "R_") device user s₁ prefix_device r.second r.first
                  (omega (arith, r.second_short)) (omega (arith, r.first_short)),
            )
            runs,
        λ j.
            value j
            ∙ bindings_cong rs
                (λ i.
                  value_of-stored key' user s₁ word' r.first i
                  ∙ rw (value_of-stored key device s word r.second i) refl)
                j,
      )

  -- initUserInfoList puts every user into Redis: behind it U_ and a name has the id of the last row with
  -- that name; any other key is as it was. The rows are words that fit the keys.
  pub load_users_lem :
      (rs : List (List ℕ × List ℕ)) (s : h.redis.State)
      → AreRows rs
      → (s' : h.redis.State) × (load_users h (columns rs) s ≡ ok s')
        × ((j : List ℕ) → st.value_of s' j ≡ users_of rs (st.value_of s) j)
  unfolding load_users two_columns
  load_users_lem [] s fits = (s, refl, λ j. refl)
  load_users_lem ((id, name) ∷ rs) s (r, fits) =
      let key = codes "U_" ++ name in
      let word = IsWord-append (codes "U_") name prefix_user r.second in
      let (s', runs, value) = load_users_lem rs (stored key id s) fits in
      (
        s',
        rw
            (set_prefixed_lem (codes "U_") name id s prefix_user r.second r.first
              (omega (arith, r.second_short)) (omega (arith, r.first_short)))
            runs,
        λ j. value j ∙ users_cong rs (λ i. value_of-stored key id s word r.first i) j,
      )
