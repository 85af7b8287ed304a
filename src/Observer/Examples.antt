-- ===== src/Observer/Examples.antt =====
-- A subject with one observer, and the theorems on observers applied to it.
use robot_server.Common.{
  ℕ, ◌≡◌, ◌≢◌, ◌⊎◌, refl, none, some, List, [], ◌∷◌, ◌==◌, if◌then◌else◌, arith, map,
}
use robot_server.Common.Outcome.{ok, fault}
use robot_server.Util.Paths.{codes}
use robot_server.Observer.{
  Class, chat_observer, sheet_observer, word_observer, Observer, Heap, new_observer,
  data_subject_set_state, data_subject_notify, data_subject_detach, observer_dtor, observer_main,
  data_subject_ctor, single_list_ctor, data_subject_attach, single_list_insert,
  single_list_iterator, iterator_loop, single_list_print, update_handler, observer_update,
  data_subject_get_state, print_info,
}
use robot_server.Observer.Lists.{IsSubject}
use robot_server.Observer.Actions.{
  Action, View, observes, states, notifies, IsSeen, act_all, seen_all,
}
use robot_server.Observer.Behaviour.{act_all_lem}
use robot_server.Observer.Delete.{observer_dtor_lem}

abbrev sheet : Observer
sheet = record { class = sheet_observer; st = none; sub = some 1 }

abbrev heap : Heap
heap = record {
  nodes = λ a.
      if a == 3
      then some (record { data_ = none; next = some 4 })
      else if a == 4
      then some (record { data_ = some 10; next = none })
      else none;
  lists = λ a. if a == 2 then some (some 3) else none;
  subjects = λ a. if a == 1 then some (record { obvs = some 2; st = none }) else none;
  observers = λ a. if a == 10 then some sheet else none;
  printed = [];
}

heap-IsSubject : IsSubject heap 1 2 3 none ((4, 10) ∷ [])
heap-IsSubject = record {
  first = some 4;
  subject = refl;
  head = refl;
  head_node = refl;
  chain = (refl, none, refl, refl);
}

abbrev class_of : ℕ → Class
class_of o = if o == 10 then sheet_observer else chat_observer

abbrev news : List ℕ
news = codes "new data"

abbrev first_view : View
first_view = record { members = 10 ∷ []; st = none; printed = [] }

observer_dtor_lem_example :
    (h' : Heap) × (data_subject_detach 5 1 10 heap ≡ ok h')
    × IsSubject h' 1 2 3 none []
    × (h'.nodes 4 ≡ none)
    × (h'.observers 10 ≡ none)
    × ((a : ℕ) → a ≢ 3 → a ≢ 4 → h'.nodes a ≡ heap.nodes a)
    × ((a : ℕ) → a ≢ 10 → h'.observers a ≡ heap.observers a)
    × (((sheet_observer ≡ chat_observer) × (observer_dtor 5 10 heap ≡ fault))
        ⊎ ((sheet_observer ≢ chat_observer) × (observer_dtor 5 10 heap ≡ ok h')))
observer_dtor_lem_example = observer_dtor_lem heap-IsSubject refl tt tt 5 refl (omega arith)

abbrev empty : Heap
empty = record {
  nodes = λ a. none;
  lists = λ a. none;
  subjects = λ a. none;
  observers = λ a. none;
  printed = [];
}

abbrev lines_of : List (Class × List ℕ)
lines_of =
    (word_observer, codes "old data")
    ∷ (chat_observer, codes "old data")
    ∷ (sheet_observer, codes "old data")
    ∷ (word_observer, codes "new data")
    ∷ (chat_observer, codes "new data")
    ∷ (sheet_observer, codes "new data")
    ∷ []

main_prints : (h : Heap) × (observer_main empty ≡ ok h) × (h.printed ≡ lines_of)
unfolding observer_main new_observer data_subject_ctor single_list_ctor data_subject_attach
    single_list_insert data_subject_set_state data_subject_notify single_list_iterator iterator_loop
    update_handler observer_update data_subject_get_state print_info
main_prints = (_, refl, refl)

heap-IsSeen : IsSeen class_of heap 1 2 3 first_view
heap-IsSeen = record {
  cells = (4, 10) ∷ [];
  subject = heap-IsSubject;
  members = refl;
  live = ((sheet, refl, refl), tt);
  printed = refl;
}

abbrev acts : List Action
acts = observes 11 5 ∷ states (some news) ∷ notifies ∷ observes 12 6 ∷ []

act_all_lem_example :
    ((v' : View) × (h' : Heap) × (seen_all class_of acts first_view ≡ some v')
      × (act_all class_of 6 1 acts heap ≡ ok h')
      × IsSeen class_of h' 1 2 3 v'
      × (single_list_print 6 2 h' ≡ ok (map some v'.members)))
    ⊎ ((seen_all class_of acts first_view ≡ none) × (act_all class_of 6 1 acts heap ≡ fault))
act_all_lem_example =
    act_all_lem class_of acts 6 1 2 3 heap first_view heap-IsSeen
      (
        refl,
        (tt, (tt, (λ e. omega (arith, e), tt))),
        (tt, (tt, (tt, tt)), (tt, (tt, tt), (refl, tt, tt))),
      )
      (omega arith)

acts-seen :
    seen_all class_of acts first_view
    ≡ some (record {
      members = 12 ∷ 11 ∷ 10 ∷ [];
      st = some news;
      printed = (chat_observer, news) ∷ (sheet_observer, news) ∷ [];
    })
acts-seen = refl

-- Before the first state is set.
null_told : act_all class_of 6 1 (notifies ∷ []) heap ≡ fault
unfolding data_subject_notify single_list_iterator iterator_loop update_handler observer_update
    data_subject_get_state print_info
null_told = refl
