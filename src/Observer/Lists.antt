-- ===== src/Observer/Lists.antt =====
-- The list of a subject in the heap, and what a new observer does to it.
use robot_server.Common.{
  ℕ, ◌≡◌, ◌≢◌, refl, sym, ◌∙◌, Option, none, some, List, [], ◌∷◌, All, ne→==, ==_refl,
}
use robot_server.Common.Outcome.{ok}
use robot_server.WorkQueue.{update}
use robot_server.Observer.{
  Class, Node, Observer, Heap, read, single_list_insert, data_subject_attach,
}

-- A node and the observer that it holds.
abbrev pub Cell : Type 0
Cell = ℕ × ℕ

-- From the link `p` on, the nodes hold these observers.
abbrev pub IsChain : (ℕ → Option Node) → Option ℕ → List Cell → Type 0
IsChain nodes p [] = p ≡ none
IsChain nodes p ((a, o) ∷ cells) =
    (p ≡ some a)
    × (next : Option ℕ) × (nodes a ≡ some (record { data_ = some o; next = next }))
    × IsChain nodes next cells

-- The subject at `s` has the list at `l`, whose head is at `n`, with these observers.
pub record IsSubject (h : Heap) (s l n : ℕ) (st : Option (List ℕ)) (cells : List Cell)
    : Type 0 where
  pub first : Option ℕ
  pub subject : h.subjects s ≡ some (record { obvs = some l; st = st })
  pub head : h.lists l ≡ some (some n)
  pub head_node : h.nodes n ≡ some (record { data_ = none; next = first })
  pub chain : IsChain h.nodes first cells

-- The observer at `o` is there, and of this class.
abbrev pub IsLive : Heap → (ℕ → Class) → ℕ → Type 0
IsLive h class o = (ob : Observer) × (h.observers o ≡ some ob) × (ob.class ≡ class o)

pub read_at :
    {A : Type 0} (m : ℕ → Option A) (a : ℕ) (v : A) → m a ≡ some v → read m (some a) ≡ ok v
read_at m a v e = rw (e, read) refl

pub update_other : {A : Type 0} (m : ℕ → A) (a b : ℕ) (v : A) → a ≢ b → update m a v b ≡ m b
update_other m a b v ne = rw (ne→== a b ne) refl

pub update_here : {A : Type 0} (m : ℕ → A) (a : ℕ) (v : A) → update m a v a ≡ v
update_here m a v = rw (==_refl a) refl

-- A chain whose nodes are not the one that changes.
pub IsChain-update :
    (nodes : ℕ → Option Node) (b : ℕ) (v : Option Node) (p : Option ℕ) (cells : List Cell)
    → IsChain nodes p cells
    → All (λ c. b ≢ c.0) cells
    → IsChain (update nodes b v) p cells
IsChain-update nodes b v p [] c apart = c
IsChain-update nodes b v p ((a, o) ∷ cells) (at, next, here, rest) (ne, apart) =
    (at, next, update_other nodes b a v ne ∙ here, IsChain-update nodes b v next cells rest apart)

-- A node that is not allocated, or holds no observer, is not in a chain.
pub IsChain-apart :
    (nodes : ℕ → Option Node) (b : ℕ) (p : Option ℕ) (cells : List Cell)
    → ((o : ℕ) (next : Option ℕ) → nodes b ≢ some (record { data_ = some o; next = next }))
    → IsChain nodes p cells
    → All (λ c. b ≢ c.0) cells
IsChain-apart nodes b p [] none_there c = tt
IsChain-apart nodes b p ((a, o) ∷ cells) none_there (at, next, here, rest) =
    (λ e. none_there o next (rw e here), IsChain-apart nodes b next cells none_there rest)

-- The heap behind the attachment of an observer at `o`, with its node at `b`.
abbrev pub attached : Heap → (n b o : ℕ) → Option ℕ → Heap
attached h n b o first = record h {
  nodes =
      update (update h.nodes b (some (record { data_ = some o; next = first }))) n
        (some (record { data_ = none; next = some b }));
}

module _ {h : Heap} {s l n : ℕ} {st : Option (List ℕ)} {cells : List Cell}
    (i : IsSubject h s l n st cells) (o b : ℕ) (unused : h.nodes b ≡ none) where
  pub head_apart : n ≢ b
  head_apart e = absurd (let f : h.nodes n ≡ none = rw e unused in cc)

  pub attach_lem : data_subject_attach s o b h ≡ ok (attached h n b o i.first)
  unfolding data_subject_attach single_list_insert
  attach_lem =
      rw
        (
          read_at h.subjects s _ i.subject,
          read_at h.lists l _ i.head,
          read_at h.nodes n _ i.head_node,
        )
        refl

  pub attached-IsSubject : IsSubject (attached h n b o i.first) s l n st ((b, o) ∷ cells)
  attached-IsSubject =
      let node : Option Node = some (record { data_ = some o; next = i.first }) in
      let mid = update h.nodes b node in
      let front = IsChain-update h.nodes b node i.first cells i.chain (
        IsChain-apart h.nodes b i.first cells
          (λ o next e. (let f : none ≡ some _ = sym unused ∙ e in cc)) i.chain) in
      record {
        first = some b;
        subject = i.subject;
        head = i.head;
        head_node = update_here mid n _;
        chain = (
          refl,
          i.first,
          update_other mid n b _ head_apart ∙ update_here h.nodes b node,
          IsChain-update mid n _ i.first cells front (
              IsChain-apart h.nodes n i.first cells
                (λ o next e. (let f : some _ ≡ some _ = sym i.head_node ∙ e in cc)) i.chain),
        );
      }
