-- ===== src/Observer/Notify.antt =====
-- What `Notify` does to the observers of a subject.
use mathlib.Core.List.{append_assoc, append-nil}
use robot_server.Common.{
  ℕ, suc, ◌≤◌, ◌≡◌, ◌⊎◌, inl, inr, refl, sym, ap, ◌∙◌, Option, none, some, List, [], ◌∷◌, ◌++◌,
  ◌==◌, All, arith, length, map, Bool-cases, ==_iff, zero,
}
use robot_server.Common.Outcome.{ok, fault}
use robot_server.WorkQueue.{update}
use robot_server.Observer.{
  Class, Observer, Heap, iterator_loop, single_list_iterator, data_subject_get_state,
  data_subject_set_state, print_info, observer_update, update_handler, data_subject_notify,
  new_observer,
}
use robot_server.Observer.Lists.{
  Cell, IsChain, IsSubject, IsLive, read_at, update_here, attached, attach_lem, attached-IsSubject,
}

-- The observer at `o` knows the state `st`.
abbrev pub Knows : Option (List ℕ) → Heap → ℕ → Type 0
Knows st h o = (ob : Observer) × (h.observers o ≡ some ob) × (ob.st ≡ st)

-- The heap behind the update of one observer.
abbrev told : List ℕ → ℕ → Observer → Heap → Heap
told st o ob h = record h {
  observers = update h.observers o (some (record ob { st = some st }));
  printed = h.printed ++ ((ob.class, st) ∷ []);
}

abbrev pub lines : (ℕ → Class) → List ℕ → List Cell → List (Class × List ℕ)
lines class st = map (λ c. (class c.1, st))

at_update :
    {A : Type 0} (m : ℕ → A) (a b : ℕ) (v : A)
    → ((a ≡ b) × (update m a v b ≡ v)) ⊎ (update m a v b ≡ m b)
at_update m a b v = elim (Bool-cases (a == b)) [
  | inl e ↦ inl ((==_iff a b).0 e, rw e refl)
  | inr e ↦ inr (rw e refl)
]

-- Observers stay where they are, if one is written that has its class.
module _ (class : ℕ → Class) (h h' : Heap) (o : ℕ) (ob : Observer) (c : ob.class ≡ class o)
    (at : h'.observers ≡ update h.observers o (some ob)) where
  IsLive-update : (b : ℕ) → IsLive h class b → IsLive h' class b
  IsLive-update b (ob', at', c') = elim (at_update h.observers o b (some ob)) [
    | inl (e, new) ↦ (ob, ap (λ m. m b) at ∙ new, c ∙ ap class e)
    | inr old ↦ (ob', ap (λ m. m b) at ∙ old ∙ at', c')
  ]

  pub All-IsLive :
      (cells : List Cell)
      → All (λ c. IsLive h class c.1) cells
      → All (λ c. IsLive h' class c.1) cells
  All-IsLive [] live = tt
  All-IsLive (x ∷ cells) (l, live) = (IsLive-update x.1 l, All-IsLive cells live)

observer_update_null :
    (h : Heap) (s o : ℕ) (obvs : Option ℕ) (ob : Observer)
    → h.subjects s ≡ some (record { obvs = obvs; st = none })
    → h.observers o ≡ some ob
    → observer_update o s h ≡ fault
unfolding observer_update data_subject_get_state print_info
observer_update_null h s o obvs ob at live =
    rw (read_at h.observers o ob live, read_at h.subjects s _ at) refl

-- Before a first state is set, the first observer reads a null string.
pub notify_null :
    (class : ℕ → Class) (fuel s l n : ℕ) (c : Cell) (cells : List Cell) (h : Heap)
    → IsSubject h s l n none (c ∷ cells)
    → IsLive h class c.1
    → 1 ≤ fuel
    → data_subject_notify fuel s h ≡ fault
unfolding data_subject_notify single_list_iterator iterator_loop update_handler
notify_null class zero s l n c cells h i live enough = absurd (omega arith)
notify_null class (suc fuel) s l n (a, o) cells h i (ob, is_at, is_class) enough =
    rw
      (
        read_at h.subjects s _ i.subject,
        read_at h.lists l _ i.head,
        read_at h.nodes n _ i.head_node,
        i.chain.0,
        read_at h.nodes a _ i.chain.2,
        observer_update_null h s o (some l) ob i.subject is_at,
      )
      refl

-- Without observers Notify does nothing.
pub notify_empty :
    (fuel s l n : ℕ) (st : Option (List ℕ)) (h : Heap)
    → IsSubject h s l n st []
    → data_subject_notify fuel s h ≡ ok h
unfolding data_subject_notify single_list_iterator iterator_loop
notify_empty fuel s l n st h i =
    rw
      (
        read_at h.subjects s _ i.subject,
        read_at h.lists l _ i.head,
        read_at h.nodes n _ i.head_node,
        i.chain,
      )
      refl

module _ (st : List ℕ) (class : ℕ → Class) where
  told-Knows :
      (h : Heap) (o b : ℕ) (ob : Observer)
      → Knows (some st) h b
      → Knows (some st) (told st o ob h) b
  told-Knows h o b ob (ob', at', k) =
      elim (at_update h.observers o b (some (record ob { st = some st }))) [
        | inl (e, new) ↦ (record ob { st = some st }, new, refl)
        | inr old ↦ (ob', old ∙ at', k)
      ]

  observer_update_lem :
      (h : Heap) (s o : ℕ) (obvs : Option ℕ) (ob : Observer)
      → h.subjects s ≡ some (record { obvs = obvs; st = some st })
      → h.observers o ≡ some ob
      → observer_update o s h ≡ ok (told st o ob h)
  unfolding observer_update data_subject_get_state print_info
  observer_update_lem h s o obvs ob at live =
      rw (read_at h.observers o ob live, read_at h.subjects s _ at) refl

  -- What the loop over the observers leaves.
  pub record IsTold (h h' : Heap) (cells : List Cell) : Type 0 where
    pub nodes : h'.nodes ≡ h.nodes
    pub lists : h'.lists ≡ h.lists
    pub subjects : h'.subjects ≡ h.subjects
    pub printed : h'.printed ≡ h.printed ++ lines class st cells
    pub knows : All (λ c. Knows (some st) h' c.1) cells
    pub still : (o : ℕ) → Knows (some st) h o → Knows (some st) h' o
    pub live : (o : ℕ) → IsLive h class o → IsLive h' class o

  iterator_lem :
      (fuel s : ℕ) (obvs p : Option ℕ) (cells : List Cell) (h : Heap)
      → h.subjects s ≡ some (record { obvs = obvs; st = some st })
      → IsChain h.nodes p cells
      → All (λ c. IsLive h class c.1) cells
      → length cells ≤ fuel
      → (h' : Heap) × (iterator_loop fuel p (update_handler s) h ≡ ok h') × IsTold h h' cells
  unfolding iterator_loop update_handler
  iterator_lem fuel s obvs p [] h at chain live enough = (
    h,
    rw chain refl,
    record {
      nodes = refl;
      lists = refl;
      subjects = refl;
      printed = sym (append-nil h.printed);
      knows = tt;
      still = λ o k. k;
      live = λ o l. l;
    },
  )
  iterator_lem zero s obvs p (c ∷ cells) h at chain live enough = absurd (omega arith)
  iterator_lem (suc fuel) s obvs p ((a, o) ∷ cells) h at (here, next, node, chain)
        ((ob, is_at, is_class), live) enough =
      let h₁ = told st o ob h in
      let live₁ = All-IsLive class h h₁ o (record ob { st = some st }) is_class refl cells live in
      let (h', runs, t) = iterator_lem fuel s obvs next cells h₁ at chain live₁ (omega arith) in
      (
        h',
        rw
            (
              here,
              read_at h.nodes a _ node,
              observer_update_lem h s o obvs ob at is_at,
              read_at h.nodes a _ node,
            )
            runs,
        record {
          nodes = t.nodes;
          lists = t.lists;
          subjects = t.subjects;
          printed =
              t.printed
              ∙ append_assoc h.printed ((ob.class, st) ∷ []) (lines class st cells)
              ∙ ap (λ k. h.printed ++ ((k, st) ∷ lines class st cells)) is_class;
          knows =
              (t.still o (record ob { st = some st }, update_here h.observers o _, refl), t.knows);
          still = λ b k. t.still b (told-Knows h o b ob k);
          live = λ b l.
              t.live b (IsLive-update class h h₁ o (record ob { st = some st }) is_class refl b l);
        },
      )

  -- Notify tells every observer of the subject, in the order of the list: each then knows the subject's
  -- state, and prints it, and neither the list nor the subject changes. The observers are there, and
  -- the loop may run as often as there are observers.
  pub data_subject_notify_lem :
      (fuel s l n : ℕ) (cells : List Cell) (h : Heap)
      → IsSubject h s l n (some st) cells
      → All (λ c. IsLive h class c.1) cells
      → length cells ≤ fuel
      → (h' : Heap) × (data_subject_notify fuel s h ≡ ok h') × IsTold h h' cells
  unfolding data_subject_notify single_list_iterator
  data_subject_notify_lem fuel s l n cells h i live enough =
      let (h', runs, t) =
        iterator_lem fuel s (some l) i.first cells h i.subject i.chain live enough in
      (
        h',
        rw
            (
              read_at h.subjects s _ i.subject,
              read_at h.lists l _ i.head,
              read_at h.nodes n _ i.head_node,
            )
            runs,
        t,
      )

-- A new observer is told first: the heap of a subject with some observers, to which an observer is
-- attached and whose state is set, comes behind Notify to one in which the new observer and all the
-- others know the new state, and have printed it, the new one before the others, in the order of the
-- list. The address of the node is not in use, the observers are there, and the loop may run as often
-- as there are observers.
pub new_observer-notify :
    (fuel s l n o b : ℕ) (st : Option (List ℕ)) (new : List ℕ) (cells : List Cell) (h : Heap)
    (class : ℕ → Class)
    → IsSubject h s l n st cells
    → h.nodes b ≡ none
    → All (λ c. IsLive h class c.1) cells
    → suc (length cells) ≤ fuel
    → (h₁ : Heap) × (h₂ : Heap) × (h₃ : Heap) × (new_observer (class o) o b s h ≡ ok h₁)
      × (data_subject_set_state s (some new) h₁ ≡ ok h₂)
      × (data_subject_notify fuel s h₂ ≡ ok h₃)
      × (h₃.printed ≡ h.printed ++ ((class o, new) ∷ lines class new cells))
      × Knows (some new) h₃ o
      × All (λ c. Knows (some new) h₃ c.1) cells
unfolding new_observer data_subject_set_state
new_observer-notify fuel s l n o b st new cells h class i unused live enough =
    let ob : Observer = record { class = class o; st = none; sub = some s } in
    let h₀ = record h { observers = update h.observers o (some ob) } in
    let i₀ : IsSubject h₀ s l n st cells = record {
      first = i.first;
      subject = i.subject;
      head = i.head;
      head_node = i.head_node;
      chain = i.chain;
    } in
    let h₁ = attached h₀ n b o i.first in
    let i₁ = attached-IsSubject i₀ o b unused in
    let h₂ = record h₁ {
      subjects = update h₁.subjects s (some (record { obvs = some l; st = some new }));
    } in
    let i₂ : IsSubject h₂ s l n (some new) ((b, o) ∷ cells) = record {
      first = i₁.first;
      subject = update_here h₁.subjects s _;
      head = i₁.head;
      head_node = i₁.head_node;
      chain = i₁.chain;
    } in
    let others : All (λ c. IsLive h₂ class c.1) cells =
      All-IsLive class h h₂ o ob refl refl cells live in
    let (h₃, runs, t) =
      data_subject_notify_lem new class fuel s l n ((b, o) ∷ cells) h₂ i₂
        ((ob, update_here h.observers o _, refl), others) enough in
    (
      h₁,
      h₂,
      h₃,
      attach_lem i₀ o b unused,
      rw (read_at h₁.subjects s _ i₁.subject) refl,
      runs,
      t.printed,
      t.knows.0,
      t.knows.1,
    )
