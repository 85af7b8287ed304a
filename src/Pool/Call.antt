-- ===== src/Pool/Call.antt =====
-- What a function of ApolloSqlOperator.c comes to, as built with the program's own pool: it returns, it
-- waits for a connection for ever, or it faults.
use robot_server.Common.Outcome.{Outcome, ok, fault}

pub data Call (A : Type 0) : Type 0 where
  done : A → Call A
  blocked : Call A
  crash : Call A

infixl 5 ◌>>=◌
abbrev pub ◌>>=◌ : {A B : Type 0} → Call A → (A → Call B) → Call B
done a >>= f = f a
blocked >>= f = blocked
crash >>= f = crash

abbrev pub lift : {A : Type 0} → Outcome A → Call A
lift (ok a) = done a
lift fault = crash
