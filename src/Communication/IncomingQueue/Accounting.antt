-- ===== src/Communication/IncomingQueue/Accounting.antt =====
-- What the counted size of the incoming queue stands for.
mod Tests
use lib_py.Base.{
  ℕ, zero, suc, ◌+◌, ◌-◌, ◌≤◌, ◌<◌, ◌≡◌, ◌≢◌, refl, ◌∙◌, ◌⊎◌, inl, inr, Bool, true, false, Option,
  none, some, List, [], ◌∷◌, ◌++◌, length, take, drop, ltb, leb, if◌then◌else◌, Bool-cases,
  Option-cases, arith,
}
use lib_py.Base.Bytes.{Bytes}
use lib_py.Communication.MessagePow.{nonce_size, leading_zero_bits, message_difficulty}
use lib_py.Communication.IncomingQueue.{
  Item, Queue, Outcome, accepted, too_short, low_difficulty, full, stopped, still_full,
  item_overhead, item_of, reserve, put, second_try, enqueue_incoming, Verdict, undecodable,
  handshake, unknown_peer, undecryptable, dispatched, give_back, take_item, process_incoming,
}

-- The bytes that the items of the queue account for.
abbrev pub pending : List Item → ℕ
pending [] = 0
pending (item ∷ rest) = item.accounted_size + pending rest

pub pending-append :
    (l : List Item) (item : Item) → pending (l ++ item ∷ []) ≡ pending l + item.accounted_size
pending-append [] item = omega arith
pending-append (x ∷ l) item = omega (arith, pending-append l item)

-- What happens to the queue, one locked section at a time: a payload arrives, an arrival that has
-- waited for space tries again, or the processor takes an item. Between an arrival and its second
-- try there may be any others. The second try of any payload is allowed at any time.
pub data Event : Type 0 where
  arrive : Bytes → Event
  try_again : Bytes → Event
  take_one : Event

module _ (blake3 : Bytes → Bytes) (verdict : Bytes → Verdict) where
  pub step : Event → Queue → Queue
  step (arrive payload) q = (enqueue_incoming blake3 (λ _. none) false payload q).0
  step (try_again payload) q = (second_try payload q (some q)).0
  step take_one q = process_incoming verdict q

  pub run : List Event → Queue → Queue
  run [] q = q
  run (e ∷ events) q = run events (step e q)

  -- The bytes that the processor takes from the queue and does not give back.
  pub kept_back : Verdict → ℕ → ℕ
  kept_back dispatched n = 0
  kept_back _ n = n

  pub lost : List Item → ℕ
  lost [] = 0
  lost (item ∷ rest) = kept_back (verdict item.message) item.accounted_size

  pub step_lost : Event → Queue → ℕ
  step_lost (arrive payload) q = 0
  step_lost (try_again payload) q = 0
  step_lost take_one q = lost q.items

  pub leaked : List Event → Queue → ℕ
  leaked [] q = 0
  leaked (e ∷ events) q = step_lost e q + leaked events (step e q)

  enqueue_accounts :
      (payload : Bytes) (q : Queue) (gone : ℕ)
      → q.size ≡ pending q.items + gone
      → let q' = (enqueue_incoming blake3 (λ _. none) false payload q).0 in
        (q'.size ≡ pending q'.items + gone) × (q'.limit ≡ q.limit)
  unfolding enqueue_incoming reserve put
  enqueue_accounts payload q gone h = ground (arith, pending-append q.items (item_of payload))

  try_again_accounts :
      (payload : Bytes) (q : Queue) (gone : ℕ)
      → q.size ≡ pending q.items + gone
      → let q' = (second_try payload q (some q)).0 in
        (q'.size ≡ pending q'.items + gone) × (q'.limit ≡ q.limit)
  unfolding second_try reserve put
  try_again_accounts payload q gone h = ground (arith, pending-append q.items (item_of payload))

  take_accounts :
      (items : List Item) (q : Queue) (gone : ℕ)
      → q.size ≡ pending items + gone
      → q.items ≡ items
      → let q' = take_item verdict q items in
        (q'.size ≡ pending q'.items + (lost items + gone)) × (q'.limit ≡ q.limit)
  unfolding take_item give_back lost kept_back
  take_accounts [] q gone h same = (rw same (omega arith), refl)
  take_accounts (item ∷ rest) q gone h same = ground arith

  step_accounts :
      (e : Event) (q : Queue) (gone : ℕ)
      → q.size ≡ pending q.items + gone
      → ((step e q).size ≡ pending (step e q).items + (step_lost e q + gone))
        × ((step e q).limit ≡ q.limit)
  unfolding step step_lost process_incoming
  step_accounts (arrive payload) q gone h =
      let (kept, limit) = enqueue_accounts payload q gone h in (omega arith, limit)
  step_accounts (try_again payload) q gone h =
      let (kept, limit) = try_again_accounts payload q gone h in (omega arith, limit)
  step_accounts take_one q gone h = take_accounts q.items q gone h refl

  run_accounts :
      (events : List Event) (q : Queue) (gone : ℕ)
      → q.size ≡ pending q.items + gone
      → ((run events q).size ≡ pending (run events q).items + (leaked events q + gone))
        × ((run events q).limit ≡ q.limit)
  unfolding run leaked
  run_accounts [] q gone h = (omega arith, refl)
  run_accounts (e ∷ events) q gone h =
      let (kept, limit) = step_accounts e q gone h in
      let (size, limit') = run_accounts events (step e q) (step_lost e q + gone) kept in
      (omega arith, limit' ∙ limit)

  enqueue_fits :
      (payload : Bytes) (q : Queue)
      → q.size ≤ q.limit
      → (enqueue_incoming blake3 (λ _. none) false payload q).0.size ≤ q.limit
  unfolding enqueue_incoming reserve put
  enqueue_fits payload q h = ground arith

  try_again_fits :
      (payload : Bytes) (q : Queue)
      → q.size ≤ q.limit
      → (second_try payload q (some q)).0.size ≤ q.limit
  unfolding second_try reserve put
  try_again_fits payload q h = ground arith

  take_item-size : (items : List Item) (q : Queue) → (take_item verdict q items).size ≤ q.size
  unfolding take_item give_back
  take_item-size [] q = omega arith
  take_item-size (item ∷ rest) q = ground arith

  take_fits :
      (items : List Item) (q : Queue)
      → q.size ≤ q.limit
      → (take_item verdict q items).size ≤ q.limit
  take_fits items q h = omega (arith, take_item-size items q)

  step_fits : (e : Event) (q : Queue) → q.size ≤ q.limit → (step e q).size ≤ q.limit
  unfolding step process_incoming
  step_fits (arrive payload) q h = enqueue_fits payload q h
  step_fits (try_again payload) q h = try_again_fits payload q h
  step_fits take_one q h = take_fits q.items q h

  run_fits :
      (events : List Event) (q : Queue) (gone : ℕ)
      → q.size ≡ pending q.items + gone
      → q.size ≤ q.limit
      → (run events q).size ≤ q.limit
  unfolding run
  run_fits [] q gone h fits = fits
  run_fits (e ∷ events) q gone h fits =
      let (kept, limit) = step_accounts e q gone h in
      let here : (step e q).size ≤ (step e q).limit = rw limit (step_fits e q fits) in
      omega (arith, run_fits events (step e q) (step_lost e q + gone) kept here, limit)

  -- An arrival that finds no space leaves the queue to the others, and where it waits, its second try
  -- is on what they have made of the queue.
  waits_is_try_again :
      (payload : Bytes) (during : List Event) (q : Queue)
      → (enqueue_incoming blake3 (λ _. none) false payload q).1 ≡ full
      → ((enqueue_incoming blake3 (λ _. none) false payload q).0 ≡ q)
        × ((enqueue_incoming blake3 (λ b. some (run during b)) true payload q).0
            ≡ (second_try payload (run during q) (some (run during q))).0)
  unfolding enqueue_incoming second_try
  waits_is_try_again payload during q refused =
      elim (Bool-cases (leb (length payload) nonce_size)) [
        | inl short ↦ cc (rw (enqueue_incoming, short) at refused)
        | inr long ↦
            let zeros =
              leading_zero_bits (blake3 (drop nonce_size payload ++ take nonce_size payload)) in
            elim (Bool-cases (ltb zeros (message_difficulty q.size q.limit))) [
              | inl low ↦ cc (rw (enqueue_incoming, long, low) at refused)
              | inr high ↦ elim (Option-cases (reserve (length payload + item_overhead) q)) [
                | inr (held, fits) ↦ cc (rw (enqueue_incoming, long, high, fits) at refused)
                | inl no_space ↦ (
                  rw (enqueue_incoming, long, high, no_space) refl,
                  rw (enqueue_incoming, long, high, no_space) refl,
                )
              ]
            ]
      ]

  -- A payload that the queue has no room for is refused, and changes nothing.
  no_room :
      (wait : Queue → Option Queue) (payload : Bytes) (q : Queue)
      → q.limit < q.size + 15
      → ((enqueue_incoming blake3 wait false payload q).0 ≡ q)
        × ((enqueue_incoming blake3 wait false payload q).1 ≢ accepted)
  unfolding enqueue_incoming reserve
  no_room wait payload q h = (ground arith, λ e. ground arith)

abbrev pub empty_queue : ℕ → Queue
empty_queue limit = record { size = 0; limit = limit; items = [] }

-- From an empty queue, after any sequence of arrivals, of second tries of arrivals that have waited
-- for space and of rounds of the processor, the counted size is the bytes of the items in the queue
-- and the bytes of the messages that the processor took and did not dispatch; and it is within the
-- limit.
pub run_size :
    (blake3 : Bytes → Bytes) (verdict : Bytes → Verdict) (events : List Event) (limit : ℕ)
    → let q = run blake3 verdict events (empty_queue limit) in
      (q.size ≡ pending q.items + leaked blake3 verdict events (empty_queue limit))
      × (q.size ≤ limit)
run_size blake3 verdict events limit =
    let (size, same) = run_accounts blake3 verdict events (empty_queue limit) 0 refl in
    (omega arith, run_fits blake3 verdict events (empty_queue limit) 0 refl (omega arith))

-- Once the processor has left messages undispatched that account for more than the limit less 15
-- bytes, a node that does not wait for space refuses every further payload.
pub leak_jams :
    (blake3 : Bytes → Bytes) (verdict : Bytes → Verdict) (events : List Event) (limit : ℕ)
    (wait : Queue → Option Queue) (payload : Bytes)
    → limit < leaked blake3 verdict events (empty_queue limit) + 15
    → let q = run blake3 verdict events (empty_queue limit) in
      ((enqueue_incoming blake3 wait false payload q).0 ≡ q)
      × ((enqueue_incoming blake3 wait false payload q).1 ≢ accepted)
leak_jams blake3 verdict events limit wait payload h =
    let (size, same) = run_accounts blake3 verdict events (empty_queue limit) 0 refl in
    no_room blake3 verdict wait payload (run blake3 verdict events (empty_queue limit))
      (omega arith)

-- With a limit of 0 a node that does not wait refuses every payload, whatever is in the queue, and
-- the queue stays as it is.
pub limit_zero :
    (blake3 : Bytes → Bytes) (wait : Queue → Option Queue) (payload : Bytes) (q : Queue)
    → q.limit ≡ 0
    → ((enqueue_incoming blake3 wait false payload q).0 ≡ q)
      × ((enqueue_incoming blake3 wait false payload q).1 ≢ accepted)
unfolding enqueue_incoming reserve
limit_zero blake3 wait payload q h = (ground arith, λ e. ground arith)
