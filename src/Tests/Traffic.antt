-- ===== src/Tests/Traffic.antt =====
-- One request on its way through a server with two buffers of each kind.
use nvds.Base.{◌≡◌, refl, arith, none, some, [], ◌∷◌}
use nvds.Server.Flow.{
  Flow, Steps, stop, step_then, receive, post, take, respond_to, fill, take_work,
}
use nvds.Server.Flow.Conserved.{held_recv, held_send, only, Steps-Same, take_work-Steps}

abbrev start : Flow
start = record {
  recv_free = [];
  posted = 2 ∷ 1 ∷ [];
  work = [];
  send_free = 3 ∷ 4 ∷ [];
  sending = [];
  serving = none;
}

abbrev received : Flow
received = record start { posted = 2 ∷ []; work = 1 ∷ [] }

abbrev taken : Flow
taken = record received { work = []; send_free = 4 ∷ []; serving = some (1, 3) }

abbrev answered : Flow
answered = record taken { recv_free = 1 ∷ []; sending = 3 ∷ []; serving = none }

abbrev posted_again : Flow
posted_again = record answered { recv_free = []; posted = 1 ∷ 2 ∷ [] }

one_request : Steps start posted_again
unfolding take_work
one_request = step_then (receive 1 (2 ∷ []) [] refl) (
    step_then {g = taken} (take refl refl)
      (step_then (respond_to 1 3 refl) (step_then {g = posted_again} (post refl) stop)))

filled : fill 2 (record start { recv_free = 1 ∷ 2 ∷ []; posted = [] }) ≡ some start
unfolding fill
filled = refl

Steps-Same_example :
    (held_recv (only 1) posted_again ≡ held_recv (only 1) start)
    × (held_send (only 1) posted_again ≡ held_send (only 1) start)
Steps-Same_example = Steps-Same 1 one_request

take_work-Steps_example : (h : Flow) × (take_work posted_again ≡ some h)
take_work-Steps_example = take_work-Steps one_request refl refl refl (omega arith)
