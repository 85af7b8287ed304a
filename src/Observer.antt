-- ===== src/Observer.antt =====
-- DesignPattern/Observer.c: subjects, their observers, and the list that a subject keeps of them. The
-- objects stand in a heap, kind by kind: what is not allocated is none, and its use a fault. The
-- addresses that `calloc` gives are arguments.
pub mod Lists
pub mod Notify
pub mod Delete
pub mod Actions
pub mod Behaviour
mod Examples
use robot_server.Common.{
  ℕ, zero, suc, Bool, true, false, Option, none, some, List, [], ◌∷◌, ◌++◌, ◌==◌, if◌then◌else◌,
}
use robot_server.Common.Outcome.{Outcome, ok, fault, ◌>>=◌}
use robot_server.Util.Paths.{codes}
use robot_server.WorkQueue.{update}

-- The tables of functions of the three kinds of observer.
pub data Class : Type 0 where
  chat_observer : Class
  sheet_observer : Class
  word_observer : Class

-- `Node`
pub record Node : Type 0 where
  pub data_ : Option ℕ
  pub next : Option ℕ

-- `_DataSubject`: the list of its observers, and its state, a string.
pub record DataSubject : Type 0 where
  pub obvs : Option ℕ
  pub st : Option (List ℕ)

-- `_ChatObserver`, `_SheetObserver` and `_WordObserver`
pub record Observer : Type 0 where
  pub class : Class
  pub st : Option (List ℕ)
  pub sub : Option ℕ

-- The objects, a list with its head, and what was printed.
pub record Heap : Type 0 where
  pub nodes : ℕ → Option Node
  pub lists : ℕ → Option (Option ℕ)
  pub subjects : ℕ → Option DataSubject
  pub observers : ℕ → Option Observer
  pub printed : List (Class × List ℕ)

-- What an address holds; a null pointer and what is not allocated are a fault.
abbrev pub read : {A : Type 0} → (ℕ → Option A) → Option ℕ → Outcome A
read m none = fault
read m (some a) = elim (m a) [ none ↦ fault | some v ↦ ok v ]

abbrev pub same : Option ℕ → ℕ → Bool
same none b = false
same (some a) b = a == b

-- `singleListCtor`: the head is a node without data.
unfoldable pub single_list_ctor : (l n : ℕ) → Heap → Heap
single_list_ctor l n h = record h {
  lists = update h.lists l (some (some n));
  nodes = update h.nodes n (some (record { data_ = none; next = none }));
}

-- `n` is the address of the new node.
unfoldable pub single_list_insert : (l data_ n : ℕ) → Heap → Outcome Heap
single_list_insert l data_ n h = do
  head ← read h.lists (some l)
  first ← read h.nodes head
  let added = update h.nodes n (some (record { data_ = some data_; next = first.next }))
  ok (record h {
    nodes = elim head [
      | none ↦ added
      | some a ↦ update added a (some (record first { next = some n }))
    ];
  })

-- Where the pointer `p` of `singleListRemove` points: to the head of the list, or to the link of a node.
pub data Link : Type 0 where
  head_of : ℕ → Link
  next_of : ℕ → Link

unfoldable pub read_link : Link → Heap → Outcome (Option ℕ)
read_link (head_of l) h = read h.lists (some l)
read_link (next_of a) h = do node ← read h.nodes (some a); ok node.next

unfoldable pub write_link : Link → Option ℕ → Heap → Outcome Heap
write_link (head_of l) v h = ok (record h { lists = update h.lists l (some v) })
write_link (next_of a) v h = do
  node ← read h.nodes (some a)
  ok (record h { nodes = update h.nodes a (some (record node { next = v })) })

-- `free`
unfoldable pub free_observer : ℕ → Heap → Outcome Heap
free_observer o h = do
  ob ← read h.observers (some o)
  ok (record h { observers = update h.observers o none })

unfoldable pub free_node : ℕ → Heap → Outcome Heap
free_node a h = do node ← read h.nodes (some a); ok (record h { nodes = update h.nodes a none })

-- One round of `singleListRemove` at the node `a`.
unfoldable pub remove_node : Link → ℕ → ℕ → Heap → Outcome (Link × Heap)
remove_node p a data_ h = do
  node ← read h.nodes (some a)
  if same node.data_ data_
      then (do
        h₁ ← write_link p node.next h
        h₂ ← free_observer data_ h₁
        h₃ ← free_node a h₂
        ok (p, h₃))
      else ok (next_of a, h)

-- The loop, which ends before its fuel does, or is counted as a fault.
unfoldable pub remove_loop : ℕ → Link → ℕ → Heap → Outcome Heap
remove_loop zero p data_ h = fault
remove_loop (suc fuel) p data_ h = do
  link ← read_link p h
  elim link [
    | none ↦ ok h
    | some a ↦ (do (p', h') ← remove_node p a data_ h; remove_loop fuel p' data_ h')
  ]

unfoldable pub single_list_remove : ℕ → ℕ → ℕ → Heap → Outcome Heap
single_list_remove fuel l data_ h = remove_loop fuel (head_of l) data_ h

-- The loop of `singleListIterator`, with the same fuel.
unfoldable pub iterator_loop : ℕ → Option ℕ → (Option ℕ → Heap → Outcome Heap) → Heap → Outcome Heap
iterator_loop fuel none handle_fn h = ok h
iterator_loop zero (some a) handle_fn h = fault
iterator_loop (suc fuel) (some a) handle_fn h = do
  node ← read h.nodes (some a)
  h' ← handle_fn node.data_ h
  node' ← read h'.nodes (some a)
  iterator_loop fuel node'.next handle_fn h'

unfoldable pub single_list_iterator : ℕ → ℕ → (Option ℕ → Heap → Outcome Heap) → Heap → Outcome Heap
single_list_iterator fuel l handle_fn h = do
  head ← read h.lists (some l)
  node ← read h.nodes head
  iterator_loop fuel node.next handle_fn h

-- `New(DataSubject)`: the subject at `s`, with the list at `l` and its head at `n`.
unfoldable pub data_subject_ctor : (s l n : ℕ) → Heap → Heap
data_subject_ctor s l n h =
    let h' = single_list_ctor l n h in
    record h' { subjects = update h'.subjects s (some (record { obvs = some l; st = none })) }

abbrev with_list : {A : Type 0} → Option ℕ → (ℕ → Outcome A) → Outcome A
with_list none f = fault
with_list (some l) f = f l

unfoldable pub data_subject_attach : (s o n : ℕ) → Heap → Outcome Heap
data_subject_attach s o n h = do
  subject ← read h.subjects (some s)
  with_list subject.obvs (λ l. single_list_insert l o n h)

unfoldable pub data_subject_detach : ℕ → (s o : ℕ) → Heap → Outcome Heap
data_subject_detach fuel s o h = do
  subject ← read h.subjects (some s)
  with_list subject.obvs (λ l. single_list_remove fuel l o h)

unfoldable pub data_subject_set_state : ℕ → Option (List ℕ) → Heap → Outcome Heap
data_subject_set_state s st h = do
  subject ← read h.subjects (some s)
  ok (record h { subjects = update h.subjects s (some (record subject { st = st })) })

unfoldable pub data_subject_get_state : ℕ → Heap → Outcome (Option (List ℕ))
data_subject_get_state s h = do subject ← read h.subjects (some s); ok subject.st

-- `chatObserverPrintInfo`, `sheetObserverPrintInfo` and `wordObserverPrintInfo`: `%s` reads the state,
-- which is null before the first one is set.
unfoldable pub print_info : Observer → Heap → Outcome Heap
print_info ob h = elim ob.st [
  | none ↦ fault
  | some text ↦ ok (record h { printed = h.printed ++ ((ob.class, text) ∷ []) })
]

-- `chatObserverUpdate`, `sheetObserverUpdate` and `wordObserverUpdate`
unfoldable pub observer_update : (o s : ℕ) → Heap → Outcome Heap
observer_update o s h = do
  ob ← read h.observers (some o)
  st ← data_subject_get_state s h
  let told = record ob { st = st }
  print_info told (record h { observers = update h.observers o (some told) })

-- The handler `update`, whose assertion fails for a null pointer.
unfoldable pub update_handler : ℕ → Option ℕ → Heap → Outcome Heap
update_handler s none h = fault
update_handler s (some o) h = observer_update o s h

unfoldable pub data_subject_notify : ℕ → ℕ → Heap → Outcome Heap
data_subject_notify fuel s h = do
  subject ← read h.subjects (some s)
  with_list subject.obvs (λ l. single_list_iterator fuel l (update_handler s) h)

-- `New` for an observer at `o` with the node `n`: `chatObserverCtor`, `sheetObserverCtor` and
-- `wordObserverCtor`.
unfoldable pub new_observer : Class → (o n s : ℕ) → Heap → Outcome Heap
new_observer class o n s h = data_subject_attach s o n (record h {
  observers = update h.observers o (some (record { class = class; st = none; sub = some s }));
})

-- The destructors; that of a chat observer writes to it behind the call of `detach`.
unfoldable pub clear_sub : Class → ℕ → Heap → Outcome Heap
clear_sub sheet_observer o h = ok h
clear_sub word_observer o h = ok h
clear_sub chat_observer o h = do
  ob ← read h.observers (some o)
  ok (record h { observers = update h.observers o (some (record ob { sub = none })) })

unfoldable pub observer_dtor : ℕ → ℕ → Heap → Outcome Heap
observer_dtor fuel o h = do
  ob ← read h.observers (some o)
  subject ← read h.subjects ob.sub
  h' ← with_list ob.sub (λ s. data_subject_detach fuel s o h)
  clear_sub ob.class o h'

-- `Delete`, which takes the object for its class: the place of `dtor` in a class is that of `sub` in an
-- observer, and a call of it is a fault.
unfoldable pub delete_observer : ℕ → Heap → Outcome Heap
delete_observer o h = do
  ob ← read h.observers (some o)
  elim ob.sub [ some s ↦ fault | none ↦ free_observer o h ]

-- `singleListDtor`: the head and every node is freed.
unfoldable pub free_nodes : ℕ → Option ℕ → Heap → Outcome Heap
free_nodes fuel none h = ok h
free_nodes zero (some a) h = fault
free_nodes (suc fuel) (some a) h = do
  node ← read h.nodes (some a)
  h' ← free_node a h
  free_nodes fuel node.next h'

unfoldable pub single_list_dtor : ℕ → ℕ → Heap → Outcome Heap
single_list_dtor fuel l h = do
  head ← read h.lists (some l)
  h' ← free_nodes fuel head h
  ok (record h' { lists = update h'.lists l (some none) })

-- `Delete` for a subject, where the place of `dtor` is that of `st`, and for a list, which has nothing
-- there.
unfoldable pub delete_subject : ℕ → Heap → Outcome Heap
delete_subject s h = do
  subject ← read h.subjects (some s)
  elim subject.st [ some st ↦ fault | none ↦ ok (record h { subjects = update h.subjects s none }) ]

unfoldable pub delete_list : ℕ → Heap → Outcome Heap
delete_list l h = fault

-- `dataSubjectDtor`
unfoldable pub data_subject_dtor : ℕ → Heap → Outcome Heap
data_subject_dtor s h = do
  subject ← read h.subjects (some s)
  h' ← with_list subject.obvs (λ l. delete_list l h)
  ok (record h' { subjects = update h'.subjects s (some (record subject { obvs = none })) })

-- The loop of `singleListPrint`: the data that it prints, in order.
unfoldable pub print_loop : ℕ → Option ℕ → Heap → Outcome (List (Option ℕ))
print_loop fuel none h = ok []
print_loop zero (some a) h = fault
print_loop (suc fuel) (some a) h = do
  node ← read h.nodes (some a)
  rest ← print_loop fuel node.next h
  ok (node.data_ ∷ rest)

unfoldable pub single_list_print : ℕ → ℕ → Heap → Outcome (List (Option ℕ))
single_list_print fuel l h = do
  head ← read h.lists (some l)
  node ← read h.nodes head
  print_loop fuel node.next h

-- `main`: a subject at 1 with its list at 2, three observers, and two states.
unfoldable pub observer_main : Heap → Outcome Heap
observer_main h = do
  h₁ ← new_observer sheet_observer 10 4 1 (data_subject_ctor 1 2 3 h)
  h₂ ← new_observer chat_observer 11 5 1 h₁
  h₃ ← new_observer word_observer 12 6 1 h₂
  h₄ ← data_subject_set_state 1 (some (codes "old data")) h₃
  h₅ ← data_subject_notify 3 1 h₄
  h₆ ← data_subject_set_state 1 (some (codes "new data")) h₅
  data_subject_notify 3 1 h₆
