-- ===== src/Communication/IncomingQueue/Accounting/Tests.antt =====
-- A queue with room for two payloads of ten bytes, under a digest that starts with a zero byte.
use lib_py.Base.{◌+◌, ◌≤◌, ◌≡◌, ◌≢◌, refl, false, none, List, [], ◌∷◌, arith, replicate}
use lib_py.Base.Bytes.{Bytes}
use lib_py.Communication.MessagePow.{leading_zero_bits, message_difficulty, pressure_value}
use lib_py.Communication.IncomingQueue.{
  accepted, reserve, put, second_try, enqueue_incoming, Verdict, undecodable, give_back, take_item,
  process_incoming,
}
use lib_py.Communication.IncomingQueue.Accounting.{
  Event, arrive, try_again, take_one, kept_back, lost, step_lost, step, run, leaked, empty_queue,
  run_size, leak_jams, limit_zero, pending,
}

abbrev toy_digest : Bytes → Bytes
toy_digest m = 0 ∷ 0 ∷ 0 ∷ 0 ∷ []

abbrev payload : Bytes
payload = replicate 10 7

abbrev undecoded : Bytes → Verdict
undecoded m = undecodable

abbrev events : List Event
events = arrive payload ∷ try_again payload ∷ take_one ∷ take_one ∷ []

run_test :
    run toy_digest undecoded events (empty_queue 35) ≡ record { size = 32; limit = 35; items = [] }
unfolding run step enqueue_incoming second_try reserve put process_incoming take_item give_back
    leading_zero_bits message_difficulty pressure_value
run_test = refl

run_size_example :
    let q = run toy_digest undecoded events (empty_queue 35) in
    (q.size ≡ pending q.items + leaked toy_digest undecoded events (empty_queue 35)) × (q.size ≤ 35)
run_size_example = run_size toy_digest undecoded events 35

leaked_run : leaked toy_digest undecoded events (empty_queue 35) ≡ 32
unfolding leaked step_lost lost kept_back run step enqueue_incoming second_try reserve put
    process_incoming take_item give_back leading_zero_bits message_difficulty pressure_value
leaked_run = refl

leak_jams_example :
    let q = run toy_digest undecoded events (empty_queue 35) in
    ((enqueue_incoming toy_digest (λ _. none) false payload q).0 ≡ q)
    × ((enqueue_incoming toy_digest (λ _. none) false payload q).1 ≢ accepted)
leak_jams_example =
    leak_jams toy_digest undecoded events 35 (λ _. none) payload (omega (arith, leaked_run))

limit_zero_example :
    ((enqueue_incoming toy_digest (λ _. none) false payload (empty_queue 0)).0 ≡ empty_queue 0)
    × ((enqueue_incoming toy_digest (λ _. none) false payload (empty_queue 0)).1 ≢ accepted)
limit_zero_example = limit_zero toy_digest (λ _. none) payload (empty_queue 0) refl
