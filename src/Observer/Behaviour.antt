-- ===== src/Observer/Behaviour.antt =====
-- A subject through any sequence of actions, and its list printed.
use robot_server.Common.{
  inl, inr, ◌⊎◌, some, none, ℕ, zero, suc, ◌+◌, ◌≤◌, ◌≡◌, refl, sym, ap, ◌∙◌, Option, none, some,
  List, [], ◌∷◌, All, arith, length, map,
}
use robot_server.Common.Outcome.{fault, ok}
use robot_server.Observer.{Class, Heap, single_list_print, print_loop}
use robot_server.Observer.Lists.{Cell, IsChain, read_at}
use robot_server.Observer.Actions.{
  Action, observes, states, notifies, View, seen_all, act_all, IsSeen, length-members, IsOther,
  HasRoom, act_lem,
}

module _ (class : ℕ → Class) where
  abbrev IsElsewhere : Action → Action → Type 0
  IsElsewhere a (observes o b) = IsOther class a b
  IsElsewhere a (states st) = Unit
  IsElsewhere a notifies = Unit

  -- The nodes of the new observers are not in use, and no two of them are the same.
  abbrev pub HaveRoom : List Action → Heap → Type 0
  HaveRoom [] h = Unit
  HaveRoom (a ∷ rest) h = HasRoom class a h × All (IsElsewhere a) rest × HaveRoom rest h

  room_next :
      (h h' : Heap) (a : Action) (rest : List Action)
      → ((c : ℕ) → IsOther class a c → h.nodes c ≡ none → h'.nodes c ≡ none)
      → All (IsElsewhere a) rest
      → HaveRoom rest h
      → HaveRoom rest h'
  room_next h h' a [] unused elsewhere room = tt
  room_next h h' a (observes o b ∷ rest) unused (other, elsewhere) (here, apart, room) =
      (unused b other here, apart, room_next h h' a rest unused elsewhere room)
  room_next h h' a (states st ∷ rest) unused (other, elsewhere) (here, apart, room) =
      (tt, apart, room_next h h' a rest unused elsewhere room)
  room_next h h' a (notifies ∷ rest) unused (other, elsewhere) (here, apart, room) =
      (tt, apart, room_next h h' a rest unused elsewhere room)

  -- How a sequence of actions ends.
  abbrev EndsAs : (acts : List Action) (fuel s l n : ℕ) → Heap → View → Type 0
  EndsAs acts fuel s l n h v =
      ((v' : View) × (h' : Heap) × (seen_all class acts v ≡ some v')
        × (act_all class fuel s acts h ≡ ok h')
        × IsSeen class h' s l n v'
        × (length v'.members ≤ length v.members + length acts))
      ⊎ ((seen_all class acts v ≡ none) × (act_all class fuel s acts h ≡ fault))

  act_all-IsSeen :
      (acts : List Action) (fuel s l n : ℕ) (h : Heap) (v : View)
      → IsSeen class h s l n v
      → HaveRoom acts h
      → length v.members + length acts ≤ fuel
      → EndsAs acts fuel s l n h v
  act_all-IsSeen [] fuel s l n h v i room enough = inl (v, h, refl, refl, i, omega arith)
  act_all-IsSeen (a ∷ rest) fuel s l n h v i (here, apart, room) enough =
      elim (act_lem class fuel s l n h v i a here (omega arith)) [
        | inr (undefined, runs) ↦ inr (rw (seen_all, undefined) refl, rw runs refl)
        | inl (v₁, h₁, first, next) ↦
            elim (act_all-IsSeen rest fuel s l n h₁ v₁ next.view
              (room_next h h₁ a rest next.unused apart room) (omega (arith, next.grows))) [
                | inr (undefined, runs) ↦ inr (rw (seen_all, next.sees) undefined, rw first runs)
                | inl (v', h', sees, runs, seen', few) ↦ inl (
                  v',
                  h',
                  rw (seen_all, next.sees) sees,
                  rw first runs,
                  seen',
                  omega (arith, next.grows),
                )
              ]
      ]

  print_loop_lem :
      (fuel : ℕ) (p : Option ℕ) (cells : List Cell) (h : Heap)
      → IsChain h.nodes p cells
      → length cells ≤ fuel
      → print_loop fuel p h ≡ ok (map (λ (c : Cell). some c.1) cells)
  unfolding print_loop
  print_loop_lem fuel p [] h chain enough = rw chain refl
  print_loop_lem zero p (c ∷ cells) h chain enough = absurd (omega arith)
  print_loop_lem (suc fuel) p ((a, o) ∷ cells) h (at, next, node, chain) enough =
      rw (at, read_at h.nodes a _ node, print_loop_lem fuel next cells h chain (omega arith)) refl

  some-members :
      (cells : List Cell)
      → map (λ (c : Cell). some c.1) cells ≡ map some (map (λ (c : Cell). c.1) cells)
  some-members [] = refl
  some-members (c ∷ cells) = ap (λ os. some c.1 ∷ os) (some-members cells)

  single_list_print_lem :
      (fuel s l n : ℕ) (h : Heap) (v : View)
      → IsSeen class h s l n v
      → length v.members ≤ fuel
      → single_list_print fuel l h ≡ ok (map some v.members)
  unfolding single_list_print
  single_list_print_lem fuel s l n h v i enough =
      let count : length i.cells ≡ length v.members =
        sym (length-members class i.cells) ∙ ap length i.members in
      rw
        (
          read_at h.lists l _ i.subject.head,
          read_at h.nodes n _ i.subject.head_node,
          print_loop_lem fuel i.subject.first i.cells h i.subject.chain (omega arith),
          some-members i.cells,
          i.members,
        )
        refl

  -- A subject is a list of observers, newest first, with a state: any sequence of new observers, states
  -- and calls of Notify, on a subject that is seen so, does what each action does to the view, where a
  -- call of Notify prints a line for every observer in the order of the list; printing the list then
  -- gives the observers in this order. Where an observer is told before a first state is set, so that
  -- the view is not defined, a null string is read, and that is a fault. The nodes of the new observers
  -- are not in use and differ, and the loops may run as often as there are observers and actions.
  pub act_all_lem :
      (acts : List Action) (fuel s l n : ℕ) (h : Heap) (v : View)
      → IsSeen class h s l n v
      → HaveRoom acts h
      → length v.members + length acts ≤ fuel
      → ((v' : View) × (h' : Heap) × (seen_all class acts v ≡ some v')
          × (act_all class fuel s acts h ≡ ok h')
          × IsSeen class h' s l n v'
          × (single_list_print fuel l h' ≡ ok (map some v'.members)))
        ⊎ ((seen_all class acts v ≡ none) × (act_all class fuel s acts h ≡ fault))
  act_all_lem acts fuel s l n h v i room enough =
      elim (act_all-IsSeen acts fuel s l n h v i room enough) [
        | inr undefined ↦ inr undefined
        | inl (v', h', sees, runs, seen', few) ↦ inl (
          v',
          h',
          sees,
          runs,
          seen',
          single_list_print_lem fuel s l n h' v' seen' (omega (arith, few)),
        )
      ]
