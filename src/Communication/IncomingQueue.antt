-- ===== src/Communication/IncomingQueue.antt =====
-- The incoming queue and its accounting: `enqueue_incoming` of
-- src/astreum/communication/incoming_queue.py, and the part of `process_incoming_messages` of
-- src/astreum/communication/processors/incoming.py that takes an item and gives its bytes back.
-- The digest blake3 is a parameter, and so is what the processor finds out about a message:
-- decoding, handshakes, peers and decryption are outside this model.
pub mod Accounting
use lib_py.Base.{
  ℕ, suc, ◌+◌, ◌-◌, Bool, true, false, Option, none, some, List, [], ◌∷◌, ◌++◌, length, take, drop,
  ltb, leb, if◌then◌else◌,
}
use lib_py.Base.Bytes.{Bytes}
use lib_py.Communication.MessagePow.{nonce_size, leading_zero_bits, message_difficulty}

-- What `node.incoming_queue.put` stores; the address is left out, and `packet_size` is the length
-- of the payload.
pub record Item : Type 0 where
  pub message : Bytes
  pub accounted_size : ℕ
  pub packet_size : ℕ

pub record Queue : Type 0 where
  pub size : ℕ
  pub limit : ℕ
  pub items : List Item

-- The pairs that `enqueue_incoming` returns.
pub data Outcome : Type 0 where
  accepted too_short low_difficulty full stopped still_full : Outcome

abbrev pub item_overhead : ℕ
item_overhead = 6

abbrev pub item_of : Bytes → Item
item_of payload = record {
  message = drop nonce_size payload;
  accounted_size = length payload + item_overhead;
  packet_size = length payload;
}

-- One locked section: the size grows if the item fits.
pub reserve : ℕ → Queue → Option Queue
reserve accounted q =
    if ltb q.limit (q.size + accounted) then none else some (record q { size = q.size + accounted })

-- `incoming_queue.put`, which does not fail: the queue has no bound of its own.
pub put : Item → Queue → Queue
put item q = record q { items = q.items ++ item ∷ [] }

-- After the wait: the state that the other threads have left, or `none` if the node stops.
pub second_try : Bytes → Queue → Option Queue → Queue × Outcome
second_try payload q none = (q, stopped)
second_try payload q (some later) = elim (reserve (length payload + item_overhead) later) [
  | none ↦ (later, still_full)
  | some held ↦ (put (item_of payload) held, accepted)
]

module _ (blake3 : Bytes → Bytes) where
  -- `wait` is what the other threads make of the queue until the second locked section;
  -- `waits` is that the timeout is positive.
  pub enqueue_incoming : (Queue → Option Queue) → Bool → Bytes → Queue → Queue × Outcome
  enqueue_incoming wait waits payload q =
      let digest = blake3 (drop nonce_size payload ++ take nonce_size payload) in
      if leb (length payload) nonce_size
      then (q, too_short)
      else if ltb (leading_zero_bits digest) (message_difficulty q.size q.limit)
      then (q, low_difficulty)
      else elim (reserve (length payload + item_overhead) q) [
        | some held ↦ (put (item_of payload) held, accepted)
        | none ↦ if waits then second_try payload q (wait q) else (q, full)
      ]

-- How the processor leaves a message. Only `dispatched` passes through the `finally` that gives
-- the bytes back; the other branches `continue` before the `try`.
pub data Verdict : Type 0 where
  undecodable handshake unknown_peer undecryptable dispatched : Verdict

give_back : Verdict → ℕ → ℕ → ℕ
give_back dispatched size accounted = size - accounted
give_back _ size accounted = size

-- One round of the processor: the first item is taken.
take_item : (Bytes → Verdict) → Queue → List Item → Queue
take_item verdict q [] = q
take_item verdict q (item ∷ rest) = record q {
  size = give_back (verdict item.message) q.size item.accounted_size;
  items = rest;
}

pub process_incoming : (Bytes → Verdict) → Queue → Queue
unfolding take_item give_back
process_incoming verdict q = take_item verdict q q.items
