-- ===== src/Communication/Route.antt =====
-- The buckets of the routing table: `Route` of src/astreum/communication/models/route.py, with
-- `add_peer` and `remove_peer`. A peer object is any value. `none` is a ValueError.
pub mod Buckets
mod Tests
use lib_py.Base.{
  ℕ, ◌+◌, Bool, true, false, ◌||◌, Option, none, some, List, [], ◌∷◌, ◌++◌, length, ltb, ◌==◌,
  if◌then◌else◌,
}
use lib_py.Base.Bytes.{Bytes, bytes_eq}
use lib_py.Consensus.Difficulty.{matching_leading_bits}

pub record Route (P : Type 0) : Type 0 where
  pub storage_public_key_bytes : Bytes
  pub bucket_size : ℕ
  pub buckets : ℕ → List Bytes
  pub peers : Bytes → Option P

-- `key in bucket`.
pub contains : List Bytes → Bytes → Bool
contains [] key = false
contains (x ∷ rest) key = bytes_eq x key || contains rest key

-- `bucket.remove(key)`: the first one, if there is one.
pub remove_first : List Bytes → Bytes → List Bytes
remove_first [] key = []
remove_first (x ∷ rest) key = if bytes_eq x key then rest else x ∷ remove_first rest key

-- `buckets[i] = bucket`.
pub set_bucket : ℕ → List Bytes → (ℕ → List Bytes) → ℕ → List Bytes
set_bucket i bucket buckets j = if i == j then bucket else buckets j

-- The bucket after `add_peer`.
pub grown : ℕ → List Bytes → Bytes → List Bytes
grown bucket_size bucket key =
    if ltb (length bucket) bucket_size
    then if contains bucket key then bucket else bucket ++ key ∷ []
    else bucket

module _ {P : Type 0} where
  -- `Route(key, bucket_size)`.
  abbrev pub new_route : Bytes → ℕ → Route P
  new_route key bucket_size = record {
    storage_public_key_bytes = key;
    bucket_size = bucket_size;
    buckets = λ i. [];
    peers = λ k. none;
  }

  pub set_peer : Bytes → Option P → (Bytes → Option P) → Bytes → Option P
  set_peer key peer peers k = if bytes_eq key k then peer else peers k

  pub add_peer : Bytes → Option P → Route P → Option (Route P)
  add_peer key peer r =
      let i = matching_leading_bits r.storage_public_key_bytes key in
      if length key == length r.storage_public_key_bytes
      then if bytes_eq key r.storage_public_key_bytes
        then some r
        else some (record r {
          buckets = set_bucket i (grown r.bucket_size (r.buckets i) key) r.buckets;
          peers = elim peer [ none ↦ r.peers | some p ↦ set_peer key (some p) r.peers ];
        })
      else none

  pub remove_peer : Bytes → Route P → Option (Route P)
  remove_peer key r =
      let i = matching_leading_bits r.storage_public_key_bytes key in
      if length key == length r.storage_public_key_bytes
      then if bytes_eq key r.storage_public_key_bytes then some r else elim (r.buckets i) [
        | [] ↦ some r
        | x ∷ bucket ↦ some (record r {
          buckets = set_bucket i (remove_first (x ∷ bucket) key) r.buckets;
          peers = set_peer key none r.peers;
        })
      ]
      else none
