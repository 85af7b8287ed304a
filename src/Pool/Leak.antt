-- ===== src/Pool/Leak.antt =====
-- What a sequence of statements does to the program's own pool of connections.
use robot_server.Common.{
  ℕ, zero, suc, ◌+◌, ◌≤◌, ◌<◌, ◌≡◌, refl, sym, List, [], ◌∷◌, All, arith, length, inl, inr, ◌⊎◌,
}
use mathlib.Core.Path.{subst}
use robot_server.Host.{Host}
use robot_server.Pool.{connection_pool_size, connected, init_mysql_pool}
use robot_server.Pool.Call.{Call, done, blocked}
use robot_server.Pool.Query.{MysqlServer, Session}
use robot_server.Pool.Supply.{
  Supply, pool_of, count_free, take_free, supply, init_mysql_pool-supply, count_free-supply,
}
use robot_server.Pool.Statements.{Request, perform_all, IsSound, at, perform_free, perform_none}

zero_or_suc : (n : ℕ) → (n ≡ 0) ⊎ ((k : ℕ) × (n ≡ suc k))
zero_or_suc zero = inl refl
zero_or_suc (suc k) = inr (k, refl)

module _ (m : MysqlServer) (h : Host) where
  -- How a sequence of statements ends.
  data IsEnd (rs : List Request) (l : Supply) : Call (Session m h) → Type 0 where
    all_done :
        (l' : Supply) (db : m.State) (s : h.redis.State)
        → length rs + count_free l' ≡ count_free l
        → IsEnd rs l (done (at m h l' db s))
    waits_for_ever : count_free l < length rs → IsEnd rs l blocked

  IsEnd-cons :
      (r : Request) (rs : List Request) (l l' : Supply) (x : Call (Session m h))
      → count_free l ≡ suc (count_free l')
      → IsEnd rs l' x
      → IsEnd (r ∷ rs) l x
  IsEnd-cons r rs l l' _ e (all_done l'' db s n) = all_done l'' db s (omega arith)
  IsEnd-cons r rs l l' _ e (waits_for_ever n) = waits_for_ever (omega arith)

  perform_all_lem :
      (rs : List Request) (l : Supply) (db : m.State) (s : h.redis.State)
      → All (λ r. IsSound m h r.statement) rs
      → IsEnd rs l (perform_all m h rs (at m h l db s))
  perform_all_lem [] l db s sound = all_done l db s (omega arith)
  perform_all_lem (r ∷ rs) l db s (sound, rest) = elim (zero_or_suc (count_free l)) [
    | inl e ↦
        rw (perform_none m h r.statement (r.attempt ∷ r.rounds) l db s sound e)
          (waits_for_ever (omega arith))
    | inr (n, e) ↦
        let (id, l', t) = take_free l n e in
        let kept = perform_free m h r.statement r.attempt r.rounds l l' id db s sound t in
        rw kept.perform_lem (
          IsEnd-cons r rs l l' _ t.count_lem
            (perform_all_lem rs l' kept.db' kept.redis_state' rest))
  ]

  -- The statements that are within the supply are done, and one more waits.
  abbrev pub IsExhausted : List Request → ℕ → Call (Session m h) → Type 0
  IsExhausted rs n x =
      (length rs ≤ n
        → (w' : Session m h) × (l' : Supply) × (x ≡ done w')
          × (w'.pool ≡ pool_of l')
          × (length rs + count_free l' ≡ n))
      × (n < length rs → x ≡ blocked)

  IsEnd-IsExhausted :
      (rs : List Request) (l : Supply) (x : Call (Session m h))
      → IsEnd rs l x
      → IsExhausted rs (count_free l) x
  IsEnd-IsExhausted rs l _ (all_done l' db s n) =
      (λ few. (at m h l' db s, l', refl, refl, n), λ many. absurd (omega arith))
  IsEnd-IsExhausted rs l _ (waits_for_ever n) = (λ few. absurd (omega arith), λ many. refl)

  -- No statement gives its connection back: of a sequence of statements on a pool whose 50 connections
  -- are made by initMysqlPool, 50 are done, each of which leaves one connection less, and the next one
  -- waits, however often it looks for a connection. Each text fits into its array, the ids that MySQL
  -- gives are numbers, and its positions are stored without a fault.
  pub perform_all-init_mysql_pool :
      (rs : List Request) (thread_id : ℕ → ℕ) (db : m.State) (s : h.redis.State)
      → All (λ r. IsSound m h r.statement) rs
      → IsExhausted rs connection_pool_size (
          perform_all m h rs (record {
            pool = init_mysql_pool (λ i. connected (thread_id i));
            db = db;
            redis_state = s;
          }))
  perform_all-init_mysql_pool rs thread_id db s sound =
      let l = supply thread_id connection_pool_size 0 in
      let ends : IsExhausted rs (count_free l) (perform_all m h rs (at m h l db s)) =
        IsEnd-IsExhausted rs l _ (perform_all_lem rs l db s sound) in
      let full : IsExhausted rs connection_pool_size (perform_all m h rs (at m h l db s)) =
        subst (λ n. IsExhausted rs n (perform_all m h rs (at m h l db s)))
          (count_free-supply thread_id connection_pool_size 0) ends in
      subst
        (λ p.
          IsExhausted rs connection_pool_size
            (perform_all m h rs (record { pool = p; db = db; redis_state = s })))
        (sym (init_mysql_pool-supply thread_id)) full
