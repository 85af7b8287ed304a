-- ===== src/Redis/Examples.antt =====
-- A Redis server that stores strings, for the runs of the handlers.
use robot_server.Common.{
  ℕ, ◌≡◌, refl, ap, true, false, Option, none, some, List, [], ◌∷◌, ◌++◌, take, drop, ◌==◌,
  if◌then◌else◌, All, arith,
}
use robot_server.Util.Paths.{codes}
use robot_server.Block.{eq_text}
use robot_server.Redis.{Reply, status, other, RedisServer}
use robot_server.Redis.Service.{IsStore, is_plain, get_result}

abbrev pub Table : Type 0
Table = List ℕ → Option (List ℕ)

abbrev update : List ℕ → Option (List ℕ) → Table → Table
update k v t j = if eq_text k j then v else t j

-- The words before and behind the first blank.
abbrev pub word : List ℕ → List ℕ
word [] = []
word (c ∷ s) = if c == 32 then [] else c ∷ word s

abbrev pub rest : List ℕ → List ℕ
rest [] = []
rest (c ∷ s) = if c == 32 then s else rest s

-- The three commands.
abbrev pub run : List ℕ → Table → Reply × Table
run command t =
    let args = drop 4 command in
    if eq_text (take 4 command) (codes "get ")
    then (get_result (t args), t)
    else if eq_text (take 4 command) (codes "set ")
    then (status (codes "OK"), update (word args) (some (rest args)) t)
    else (other, update args none t)

abbrev pub table_server : RedisServer
table_server = record { State = Table; redis_command = run }

plain-blank : (c : ℕ) → is_plain c ≡ true → (c == 32) ≡ false
plain-blank c h = ground arith

pub word-append :
    (k v : List ℕ)
    → All (λ c. is_plain c ≡ true) k
    → (word (k ++ (32 ∷ v)) ≡ k) × (rest (k ++ (32 ∷ v)) ≡ v)
word-append [] v h = (refl, refl)
word-append (c ∷ k) v (a, h) =
    let (front, back) = word-append k v h in rw (plain-blank c a) (ap (λ s. c ∷ s) front, back)

abbrev pub table_server-IsStore : IsStore table_server
table_server-IsStore = record {
  value_of = λ t k. t k;
  get_lem = λ k s h. refl;
  set_status = λ k v s h g. refl;
  set_value = λ k v s j (l, h) g. let (front, back) = word-append k v h in rw (front, back) refl;
  del_value = λ k s j h. refl;
}
