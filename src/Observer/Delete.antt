-- ===== src/Observer/Delete.antt =====
-- What the destructor of an observer does.
use robot_server.Common.{
  ℕ, zero, suc, ◌+◌, ◌≤◌, ◌≡◌, ◌≢◌, ◌⊎◌, inl, inr, refl, sym, ap, ◌∙◌, false, Option, none, some,
  List, [], ◌∷◌, All, arith, length, ne→==, ==_refl,
}
use robot_server.Common.Outcome.{ok, fault}
use robot_server.WorkQueue.{update}
use robot_server.Observer.{
  Class, chat_observer, sheet_observer, word_observer, Node, Observer, Heap, read, Link, head_of,
  next_of, same, read_link, write_link, free_observer, free_node, remove_node, remove_loop,
  single_list_remove, data_subject_detach, clear_sub, observer_dtor,
}
use robot_server.Observer.Lists.{
  Cell, IsChain, IsSubject, read_at, update_other, update_here, IsChain-update, IsChain-apart,
}

-- A node with other data is passed over.
pass_node :
    (p : Link) (a o : ℕ) (node : Node) (h : Heap)
    → h.nodes a ≡ some node
    → same node.data_ o ≡ false
    → remove_node p a o h ≡ ok (next_of a, h)
unfolding remove_node
pass_node p a o node h at other = rw (read_at h.nodes a node at, other) refl

-- From a node on, no cell holds the observer: nothing changes.
remove_none :
    (fuel a o : ℕ) (node : Node) (cells : List Cell) (h : Heap)
    → h.nodes a ≡ some node
    → IsChain h.nodes node.next cells
    → All (λ c. c.1 ≢ o) cells
    → suc (length cells) ≤ fuel
    → remove_loop fuel (next_of a) o h ≡ ok h
unfolding remove_loop read_link
remove_none zero a o node cells h at chain others enough = absurd (omega arith)
remove_none (suc fuel) a o node [] h at chain others enough =
    rw (read_at h.nodes a node at, chain) refl
remove_none (suc fuel) a o node ((b, d) ∷ cells) h at (here, next, is_node, chain) (ne, others)
      enough =
    rw (read_at h.nodes a node at, here, pass_node (next_of a) b o _ h is_node (ne→== d o ne))
      (remove_none fuel b o _ cells h is_node chain others (omega arith))

-- The heap behind the removal of the first observer.
abbrev pub removed : Heap → (n b o : ℕ) → Option ℕ → Heap
removed h n b o next = record h {
  nodes = update (update h.nodes n (some (record { data_ = none; next = next }))) b none;
  observers = update h.observers o none;
}

module _ {h : Heap} {s l n b o : ℕ} {st : Option (List ℕ)} {cells : List Cell} {ob : Observer}
    (i : IsSubject h s l n st ((b, o) ∷ cells)) (live : h.observers o ≡ some ob)
    (once : All (λ c. b ≢ c.0) cells) (alone : All (λ c. c.1 ≢ o) cells) where
  next : Option ℕ
  next = i.chain.1

  is_node : h.nodes b ≡ some (record { data_ = some o; next = next })
  unfolding next
  is_node = i.chain.2

  apart : n ≢ b
  apart e = absurd (
      let f : some (record { data_ = none; next = i.first })
          ≡ some (record { data_ = some o; next = next }) =
        sym i.head_node ∙ ap h.nodes e ∙ is_node in
      cc)

  abbrev cut : ℕ → Option Node
  cut = update h.nodes n (some (record { data_ = none; next = next }))

  remaining : IsChain (removed h n b o next).nodes next cells
  unfolding next
  remaining =
      IsChain-update cut b none next cells
        (IsChain-update h.nodes n _ next cells i.chain.3 (
          IsChain-apart h.nodes n next cells
            (λ d q e. (let f : some _ ≡ some _ = sym i.head_node ∙ e in cc)) i.chain.3))
        once

  removed-IsSubject : IsSubject (removed h n b o next) s l n st cells
  removed-IsSubject = record {
    first = next;
    subject = i.subject;
    head = i.head;
    head_node = update_other cut b n none (λ e. apart (sym e)) ∙ update_here h.nodes n _;
    chain = remaining;
  }

  remove_first : remove_node (next_of n) b o h ≡ ok (next_of n, removed h n b o next)
  unfolding remove_node write_link free_observer free_node
  remove_first =
      rw
        (
          read_at h.nodes b _ is_node,
          ==_refl o,
          read_at h.nodes n _ i.head_node,
          read_at h.observers o ob live,
          read_at cut b _ (update_other h.nodes n b _ apart ∙ is_node),
        )
        refl

  detach_lem :
      (fuel : ℕ)
      → length cells + 3 ≤ fuel
      → data_subject_detach fuel s o h ≡ ok (removed h n b o next)
  unfolding data_subject_detach single_list_remove remove_loop read_link removed-IsSubject next
  detach_lem zero enough = absurd (omega arith)
  detach_lem (suc zero) enough = absurd (omega arith)
  detach_lem (suc (suc fuel)) enough =
      rw
        (
          read_at h.subjects s _ i.subject,
          read_at h.lists l _ i.head,
          pass_node (head_of l) n o _ h i.head_node refl,
          read_at h.nodes n _ i.head_node,
          i.chain.0,
          remove_first,
        )
        (remove_none fuel n o _ cells (removed h n b o next) removed-IsSubject.head_node remaining
          alone (omega arith))

  dtor_runs :
      (fuel : ℕ)
      → ob.sub ≡ some s
      → length cells + 3 ≤ fuel
      → observer_dtor fuel o h ≡ clear_sub ob.class o (removed h n b o next)
  unfolding observer_dtor
  dtor_runs fuel sub enough =
      rw
        (
          read_at h.observers o ob live,
          sub,
          read_at h.subjects s _ i.subject,
          detach_lem fuel enough,
        )
        refl

  clear_lem :
      (k : Class) (h' : Heap)
      → h'.observers o ≡ none
      → ((k ≡ chat_observer) × (clear_sub k o h' ≡ fault))
        ⊎ ((k ≢ chat_observer) × (clear_sub k o h' ≡ ok h'))
  unfolding clear_sub
  clear_lem chat_observer h' gone = inl (refl, rw (gone, read, clear_sub) refl)
  clear_lem sheet_observer h' gone = inr ((λ e. cc), refl)
  clear_lem word_observer h' gone = inr ((λ e. cc), refl)

  -- The destructor of the observer that was attached last detaches it: it is taken out of the subject's
  -- list, where the other observers stay, in order, its node and the observer itself are freed, and
  -- nothing else is. The destructor of a chat observer then writes to the freed observer, which is a
  -- fault; that of another kind ends there. Each of the other nodes is another one, and the observer is
  -- attached once; the loop may run three times more often than there are others.
  pub observer_dtor_lem :
      (fuel : ℕ)
      → ob.sub ≡ some s
      → length cells + 3 ≤ fuel
      → (h' : Heap) × (data_subject_detach fuel s o h ≡ ok h')
        × IsSubject h' s l n st cells
        × (h'.nodes b ≡ none)
        × (h'.observers o ≡ none)
        × ((a : ℕ) → a ≢ n → a ≢ b → h'.nodes a ≡ h.nodes a)
        × ((a : ℕ) → a ≢ o → h'.observers a ≡ h.observers a)
        × (((ob.class ≡ chat_observer) × (observer_dtor fuel o h ≡ fault))
            ⊎ ((ob.class ≢ chat_observer) × (observer_dtor fuel o h ≡ ok h')))
  observer_dtor_lem fuel sub enough =
      let h' = removed h n b o next in
      let gone = update_here h.observers o none in
      (
        h',
        detach_lem fuel enough,
        removed-IsSubject,
        update_here cut b none,
        gone,
        λ a other_head other.
            update_other cut b a none (λ e. other (sym e))
            ∙ update_other h.nodes n a _ (λ e. other_head (sym e)),
        λ a other. update_other h.observers o a none (λ e. other (sym e)),
        elim (clear_lem ob.class h' gone) [
          | inl (k, e) ↦ inl (k, dtor_runs fuel sub enough ∙ e)
          | inr (k, e) ↦ inr (k, dtor_runs fuel sub enough ∙ e)
        ],
      )
