-- ===== src/Observer/Actions.antt =====
-- A subject as what its clients see of it: the observers, newest first, the state, and what was printed;
-- and one action on it.
use mathlib.Core.List.{append-nil}
use robot_server.Common.{
  Option-cases, inl, inr, ◌⊎◌, ℕ, suc, ◌≤◌, ◌≡◌, ◌≢◌, refl, sym, ap, ◌∙◌, Option, none, some, List,
  [], ◌∷◌, ◌++◌, All, All-imp, arith, length, map,
}
use mathlib.Core.Path.{subst}
use robot_server.Common.Outcome.{fault, Outcome, ok, ◌>>=◌}
use robot_server.WorkQueue.{update}
use robot_server.Observer.{
  Class, Observer, Heap, new_observer, data_subject_set_state, data_subject_notify,
}
use robot_server.Observer.Lists.{
  Cell, IsChain, IsSubject, IsLive, read_at, update_here, update_other, attached, attach_lem,
  attached-IsSubject,
}
use robot_server.Observer.Notify.{
  notify_null, notify_empty, lines, All-IsLive, data_subject_notify_lem,
}

-- What a client does: a new observer at `o`, with its node at `b`; a state; Notify.
pub data Action : Type 0 where
  observes : (o b : ℕ) → Action
  states : Option (List ℕ) → Action
  notifies : Action

pub record View : Type 0 where
  pub members : List ℕ
  pub st : Option (List ℕ)
  pub printed : List (Class × List ℕ)

module _ (class : ℕ → Class) where
  -- Specification: what Notify prints; it is not defined where an observer is told a null state.
  abbrev pub announced : Option (List ℕ) → List ℕ → Option (List (Class × List ℕ))
  announced none [] = some []
  announced none (o ∷ members) = none
  announced (some text) members = some (map (λ o. (class o, text)) members)

  -- Specification: what an action does to the view.
  abbrev pub seen : Action → View → Option View
  seen (observes o b) v = some (record v { members = o ∷ v.members })
  seen (states st) v = some (record v { st = st })
  seen notifies v = elim (announced v.st v.members) [
    | none ↦ none
    | some ls ↦ some (record v { printed = v.printed ++ ls })
  ]

  abbrev pub seen_all : List Action → View → Option View
  seen_all [] v = some v
  seen_all (a ∷ rest) v = elim (seen a v) [ none ↦ none | some v' ↦ seen_all rest v' ]

  abbrev pub act : (fuel s : ℕ) → Action → Heap → Outcome Heap
  act fuel s (observes o b) h = new_observer (class o) o b s h
  act fuel s (states st) h = data_subject_set_state s st h
  act fuel s notifies h = data_subject_notify fuel s h

  abbrev pub act_all : (fuel s : ℕ) → List Action → Heap → Outcome Heap
  act_all fuel s [] h = ok h
  act_all fuel s (a ∷ rest) h = act fuel s a h >>= λ h'. act_all fuel s rest h'

  -- The subject at `s` in the heap is seen as the view.
  pub record IsSeen (h : Heap) (s l n : ℕ) (v : View) : Type 0 where
    pub cells : List Cell
    pub subject : IsSubject h s l n v.st cells
    pub members : map (λ c. c.1) cells ≡ v.members
    pub live : All (λ c. IsLive h class c.1) cells
    pub printed : h.printed ≡ v.printed

  pub length-members : (cells : List Cell) → length (map (λ (c : Cell). c.1) cells) ≡ length cells
  length-members [] = refl
  length-members (c ∷ cells) = ap suc (length-members cells)

  lines-members :
      (st : List ℕ) (cells : List Cell)
      → lines class st cells ≡ map (λ o. (class o, st)) (map (λ (c : Cell). c.1) cells)
  lines-members st [] = refl
  lines-members st (c ∷ cells) = ap (λ ls. (class c.1, st) ∷ ls) (lines-members st cells)

  -- The node of a new observer, or none.
  abbrev pub IsOther : Action → ℕ → Type 0
  IsOther (observes o b) c = b ≢ c
  IsOther (states st) c = Unit
  IsOther notifies c = Unit

  abbrev pub HasRoom : Action → Heap → Type 0
  HasRoom (observes o b) h = h.nodes b ≡ none
  HasRoom (states st) h = Unit
  HasRoom notifies h = Unit

  -- One action, in the heap and in the view.
  pub record IsNext (h h' : Heap) (s l n : ℕ) (a : Action) (v v' : View) : Type 0 where
    pub sees : seen a v ≡ some v'
    pub view : IsSeen h' s l n v'
    pub grows : length v'.members ≤ suc (length v.members)
    pub unused : (c : ℕ) → IsOther a c → h.nodes c ≡ none → h'.nodes c ≡ none

  module _ (fuel s l n : ℕ) (h : Heap) (v : View) (i : IsSeen h s l n v) where
    observes_lem :
        (o b : ℕ)
        → h.nodes b ≡ none
        → (h' : Heap) × (new_observer (class o) o b s h ≡ ok h')
          × IsNext h h' s l n (observes o b) v (record v { members = o ∷ v.members })
    unfolding new_observer
    observes_lem o b room =
        let ob : Observer = record { class = class o; st = none; sub = some s } in
        let h₀ = record h { observers = update h.observers o (some ob) } in
        let i₀ : IsSubject h₀ s l n v.st i.cells = record {
          first = i.subject.first;
          subject = i.subject.subject;
          head = i.subject.head;
          head_node = i.subject.head_node;
          chain = i.subject.chain;
        } in
        let h₁ = attached h₀ n b o i.subject.first in
        (
          h₁,
          attach_lem i₀ o b room,
          record {
            sees = refl;
            grows = omega arith;
            view = record {
              cells = (b, o) ∷ i.cells;
              subject = attached-IsSubject i₀ o b room;
              members = ap (λ os. o ∷ os) i.members;
              live = (
                (ob, update_here h.observers o _, refl),
                All-IsLive class h h₁ o ob refl refl i.cells i.live,
              );
              printed = i.printed;
            };
            unused = λ c ne none_there.
                update_other (update h.nodes b _) n c _ (λ e.
                  (let f : h.nodes n ≡ none = rw (← e) at none_there in
                    let g = i.subject.head_node in cc))
                ∙ (update_other h.nodes b c _ ne ∙ none_there);
          },
        )

    states_lem :
        (st : Option (List ℕ))
        → (h' : Heap) × (data_subject_set_state s st h ≡ ok h')
          × IsNext h h' s l n (states st) v (record v { st = st })
    unfolding data_subject_set_state
    states_lem st = (
      record h { subjects = update h.subjects s (some (record { obvs = some l; st = st })) },
      rw (read_at h.subjects s _ i.subject.subject) refl,
      record {
        sees = refl;
        grows = omega arith;
        view = record {
          cells = i.cells;
          subject = record {
            first = i.subject.first;
            subject = update_here h.subjects s _;
            head = i.subject.head;
            head_node = i.subject.head_node;
            chain = i.subject.chain;
          };
          members = i.members;
          live = i.live;
          printed = i.printed;
        };
        unused = λ c ne none_there. none_there;
      },
    )

    notify_text :
        (text : List ℕ)
        → v.st ≡ some text
        → length v.members ≤ fuel
        → (h' : Heap) × (data_subject_notify fuel s h ≡ ok h')
          × IsNext h h' s l n notifies v
              (record v { printed = v.printed ++ map (λ o. (class o, text)) v.members })
    notify_text text e enough =
        let count : length i.cells ≡ length v.members =
          sym (length-members i.cells) ∙ ap length i.members in
        let subject = subst (λ t. IsSubject h s l n t i.cells) e i.subject in
        let (h', runs, t) =
          data_subject_notify_lem text class fuel s l n i.cells h subject i.live (omega arith) in
        (
          h',
          runs,
          record {
            sees =
                ap
                  (λ t. elim (announced t v.members) as (λ x. Option View) [
                    | none ↦ none
                    | some ls ↦ some (record v { printed = v.printed ++ ls })
                  ])
                  e;
            grows = omega arith;
            view = record {
              cells = i.cells;
              subject = record {
                first = i.subject.first;
                subject = ap (λ m. m s) t.subjects ∙ i.subject.subject;
                head = ap (λ m. m l) t.lists ∙ i.subject.head;
                head_node = ap (λ m. m n) t.nodes ∙ i.subject.head_node;
                chain =
                    subst (λ m. IsChain m i.subject.first i.cells) (sym t.nodes) i.subject.chain;
              };
              members = i.members;
              live =
                  All-imp (λ c. IsLive h class c.1) (λ c. IsLive h' class c.1) i.cells
                    (λ c. t.live c.1) i.live;
              printed =
                  t.printed
                  ∙ (ap (λ ps. ps ++ lines class text i.cells) i.printed
                      ∙ ap (λ ls. v.printed ++ ls)
                          (lines-members text i.cells
                            ∙ ap (λ ms. map (λ o. (class o, text)) ms) i.members));
            };
            unused = λ c ne none_there. ap (λ m. m c) t.nodes ∙ none_there;
          },
        )

    -- How an action ends: as the specification says, or with a null string that is read.
    abbrev pub IsRun : Action → Type 0
    IsRun a =
        ((v' : View) × (h' : Heap) × (act fuel s a h ≡ ok h') × IsNext h h' s l n a v v')
        ⊎ ((seen a v ≡ none) × (act fuel s a h ≡ fault))

    -- Without a state Notify returns only where there is no observer.
    null_cells :
        (cells : List Cell)
        → IsSubject h s l n none cells
        → All (λ c. IsLive h class c.1) cells
        → length cells ≤ fuel
        → ((announced none (map (λ (c : Cell). c.1) cells) ≡ some [])
            × (data_subject_notify fuel s h ≡ ok h))
          ⊎ ((announced none (map (λ (c : Cell). c.1) cells) ≡ none)
              × (data_subject_notify fuel s h ≡ fault))
    null_cells [] subject live enough = inl (refl, notify_empty fuel s l n none h subject)
    null_cells (c ∷ cells) subject (alive, live) enough =
        inr (refl, notify_null class fuel s l n c cells h subject alive (omega arith))

    notify_null_state : v.st ≡ none → length v.members ≤ fuel → IsRun notifies
    notify_null_state e enough =
        let count : length i.cells ≡ length v.members =
          sym (length-members i.cells) ∙ ap length i.members in
        let subject = subst (λ t. IsSubject h s l n t i.cells) e i.subject in
        let look : announced v.st v.members ≡ announced none (map (λ (c : Cell). c.1) i.cells) =
          ap (λ t. announced t v.members) e ∙ ap (λ ms. announced none ms) (sym i.members) in
        let view_of : Option (List (Class × List ℕ)) → Option View =
          λ x. elim x [ none ↦ none | some ls ↦ some (record v { printed = v.printed ++ ls }) ] in
        elim (null_cells i.cells subject i.live (omega arith)) [
          | inl (quiet, runs) ↦ inl (
            v,
            h,
            runs,
            record {
              sees =
                  ap view_of (look ∙ quiet)
                  ∙ ap (λ ls. some (record v { printed = ls })) (append-nil v.printed);
              grows = omega arith;
              view = i;
              unused = λ c ne none_there. none_there;
            },
          )
          | inr (undefined, runs) ↦ inr (ap view_of (look ∙ undefined), runs)
        ]

    pub act_lem : (a : Action) → HasRoom a h → length v.members ≤ fuel → IsRun a
    act_lem (observes o b) room enough =
        let (h', runs, next) = observes_lem o b room in inl (_, h', runs, next)
    act_lem (states st) room enough =
        let (h', runs, next) = states_lem st in inl (_, h', runs, next)
    act_lem notifies room enough = elim (Option-cases v.st) [
      | inl e ↦ notify_null_state e enough
      | inr (text, e) ↦ let (h', runs, next) = notify_text text e enough in inl (_, h', runs, next)
    ]
