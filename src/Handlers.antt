-- ===== src/Handlers.antt =====
-- DesignPattern/concreteHandle.c: a chain of handlers, each of which deals with a range of requests and
-- passes the others on. The objects stand in a store, by their addresses.
pub mod Chain
mod Examples
use robot_server.Common.{
  ℕ, zero, suc, Bool, true, false, not, ◌&&◌, Option, none, some, ltb, leb, ◌==◌, if◌then◌else◌,
}
use robot_server.Common.Int.{ℤ, pos, negsuc, leb_ℤ}
use robot_server.Common.Outcome.{Outcome, ok, fault, ◌>>=◌}

-- The classes, and an object with its `succ`.
pub data Class : Type 0 where
  concrete_handle_a : Class
  concrete_handle_b : Class
  concrete_handle_c : Class

pub record Handle : Type 0 where
  pub class : Class
  pub succ : Option ℕ

abbrev pub Store : Type 0
Store = ℕ → Option Handle

abbrev pub put : ℕ → Option Handle → Store → Store
put p v s a = if p == a then v else s a

-- `New`, at an address that `calloc` gives: `succ` is null.
unfoldable pub new_handle : Class → ℕ → Store → Store
new_handle class p s = put p (some (record { class = class; succ = none })) s

-- `SetSuccessor`
unfoldable pub set_successor : ℕ → ℕ → Store → Outcome Store
set_successor p succ s = elim (s p) [
  | none ↦ fault
  | some o ↦ ok (put p (some (record o { succ = some succ })) s)
]

-- `Delete`
unfoldable pub delete_handle : ℕ → Store → Outcome Store
delete_handle p s = elim (s p) [ none ↦ fault | some o ↦ ok (put p none s) ]

-- The requests of a class.
unfoldable pub deals_with : Class → ℤ → Bool
deals_with concrete_handle_a request = leb_ℤ (pos 0) request && not (leb_ℤ (pos 500) request)
deals_with concrete_handle_b request = leb_ℤ (pos 500) request && not (leb_ℤ (pos 1000) request)
deals_with concrete_handle_c request = leb_ℤ (pos 1000) request

-- What is printed: which class deals with the request, or that none can.
pub data Answer : Type 0 where
  deal : Class → Answer
  cant_deal : Answer

-- `HandleRequest`, with the calls that are left; a chain may be a ring.
unfoldable pub handle_request : ℕ → Store → ℕ → ℤ → Outcome (Option Answer)
handle_request zero s p request = ok none
handle_request (suc fuel) s p request = elim (s p) [
  | none ↦ fault
  | some o ↦ elim (deals_with o.class request) [
    | true ↦ ok (some (deal o.class))
    | false ↦ elim o.succ [
      | none ↦ ok (some cant_deal)
      | some succ ↦ handle_request fuel s succ request
    ]
  ]
]

-- The chain that `main` builds.
unfoldable pub main_chain : ℕ → ℕ → ℕ → Store → Outcome Store
main_chain h1 h2 h3 s = do
  s₁ ← set_successor h1 h2 (
      new_handle concrete_handle_c h3
        (new_handle concrete_handle_b h2 (new_handle concrete_handle_a h1 s)))
  set_successor h2 h3 s₁
