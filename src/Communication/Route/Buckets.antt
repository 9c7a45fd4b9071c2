-- ===== src/Communication/Route/Buckets.antt =====
-- Every key stands in its bucket, and no bucket is too large.
use lib_py.Base.{
  ℕ, ◌≤◌, ◌≡◌, refl, inl, inr, true, ◌||◌, Option, none, some, List, [], ◌∷◌, ◌++◌, length,
  length-append, Option-cases, arith,
}
use lib_py.Base.Bytes.{Bytes, bytes_eq, bytes_eq→eq}
use lib_py.Consensus.Difficulty.{matching_leading_bits}
use lib_py.Communication.Route.{
  Route, contains, remove_first, set_bucket, grown, new_route, add_peer, remove_peer,
}

contains-append :
    (l : List Bytes) (k x : Bytes)
    → contains (l ++ k ∷ []) x ≡ true
    → (contains l x || bytes_eq k x) ≡ true
unfolding contains
contains-append [] k x h = ground arith
contains-append (y ∷ l) k x h = ground (arith, contains-append l k x)

contains-remove_first :
    (l : List Bytes) (k x : Bytes) → contains (remove_first l k) x ≡ true → contains l x ≡ true
unfolding contains remove_first
contains-remove_first [] k x h = h
contains-remove_first (y ∷ l) k x h = ground (arith, contains-remove_first l k x)

length-remove_first : (l : List Bytes) (k : Bytes) → length (remove_first l k) ≤ length l
unfolding remove_first
length-remove_first [] k = omega arith
length-remove_first (y ∷ l) k = ground (arith, length-remove_first l k)

-- A key that the grown bucket has is an old one or the new one.
contains-grown :
    (size : ℕ) (l : List Bytes) (k x : Bytes)
    → contains (grown size l k) x ≡ true
    → (contains l x || bytes_eq k x) ≡ true
unfolding grown
contains-grown size l k x h = ground (arith, contains-append l k x)

length-grown :
    (size : ℕ) (l : List Bytes) (k : Bytes) → length l ≤ size → length (grown size l k) ≤ size
unfolding grown
length-grown size l k h = ground (arith, length-append l (k ∷ []))

-- The invariant of a route.
pub record IsRouted {P : Type 0} (own : Bytes) (size : ℕ) (r : Route P) : Type 0 where
  pub own_key : r.storage_public_key_bytes ≡ own
  pub own_size : r.bucket_size ≡ size
  pub placed :
      (i : ℕ) (x : Bytes) → contains (r.buckets i) x ≡ true → matching_leading_bits own x ≡ i
  pub bounded : (i : ℕ) → length (r.buckets i) ≤ size

module _ {P : Type 0} (own : Bytes) (size : ℕ) where
  add_peer-IsRouted :
      (key : Bytes) (peer : Option P) (r r' : Route P)
      → IsRouted own size r
      → add_peer key peer r ≡ some r'
      → IsRouted own size r'
  unfolding add_peer set_bucket
  add_peer-IsRouted key peer r r' h e = record {
    own_key = grind (arith, h.own_key);
    own_size = grind (arith, h.own_size);
    placed = λ i x there.
        let slot = matching_leading_bits r.storage_public_key_bytes key in
        grind (
          arith,
          h.own_key,
          h.placed,
          contains-grown r.bucket_size (r.buckets slot) key x,
          bytes_eq→eq key x,
        );
    bounded = λ i.
        let slot = matching_leading_bits r.storage_public_key_bytes key in
        grind
          (arith, h.own_size, h.bounded i, h.bounded slot, length-grown size (r.buckets slot) key);
  }

  remove_peer-IsRouted :
      (key : Bytes) (r r' : Route P)
      → IsRouted own size r
      → remove_peer key r ≡ some r'
      → IsRouted own size r'
  unfolding remove_peer set_bucket
  remove_peer-IsRouted key r r' h e = record {
    own_key = grind (arith, h.own_key);
    own_size = grind (arith, h.own_size);
    placed = λ i x there.
        let slot = matching_leading_bits r.storage_public_key_bytes key in
        grind (arith, h.own_key, h.placed, contains-remove_first (r.buckets slot) key x);
    bounded = λ i.
        let slot = matching_leading_bits r.storage_public_key_bytes key in
        grind (
          arith,
          h.own_size,
          h.bounded i,
          h.bounded slot,
          length-remove_first (r.buckets slot) key,
        );
  }

-- What happens to a route.
pub data Change (P : Type 0) : Type 0 where
  add : Bytes → Option P → Change P
  remove : Bytes → Change P

-- A ValueError leaves the route as it is.
unfoldable pub changed : {P : Type 0} → Change P → Route P → Option (Route P)
changed (add key peer) r = add_peer key peer r
changed (remove key) r = remove_peer key r

unfoldable pub change_all : {P : Type 0} → List (Change P) → Route P → Route P
change_all [] r = r
change_all (c ∷ rest) r = elim (changed c r) [
  | none ↦ change_all rest r
  | some r' ↦ change_all rest r'
]

changed-IsRouted :
    {P : Type 0} (own : Bytes) (size : ℕ) (c : Change P) (r r' : Route P)
    → IsRouted own size r
    → changed c r ≡ some r'
    → IsRouted own size r'
unfolding changed
changed-IsRouted own size (add key peer) r r' h e = add_peer-IsRouted own size key peer r r' h e
changed-IsRouted own size (remove key) r r' h e = remove_peer-IsRouted own size key r r' h e

change_all-IsRouted :
    {P : Type 0} (own : Bytes) (size : ℕ) (changes : List (Change P)) (r : Route P)
    → IsRouted own size r
    → IsRouted own size (change_all changes r)
unfolding change_all
change_all-IsRouted own size [] r h = h
change_all-IsRouted own size (c ∷ rest) r h = elim (Option-cases (changed c r)) [
  | inl refused ↦ rw (change_all, refused) (change_all-IsRouted own size rest r h)
  | inr (r', done) ↦
      rw (change_all, done)
        (change_all-IsRouted own size rest r' (changed-IsRouted own size c r r' h done))
]

new_route-IsRouted :
    {P : Type 0} (own : Bytes) (size : ℕ) → IsRouted own size (new_route {P = P} own size)
unfolding contains
new_route-IsRouted own size = record {
  own_key = refl;
  own_size = refl;
  placed = λ i x there. cc;
  bounded = λ i. omega arith;
}

-- After any additions and removals of peers in a new route, a key in bucket i shares exactly i
-- leading bits with the node's own key, and no bucket holds more keys than the bucket size.
pub change_all-buckets :
    {P : Type 0} (own key : Bytes) (size i : ℕ) (changes : List (Change P))
    → contains ((change_all changes (new_route own size)).buckets i) key ≡ true
    → (matching_leading_bits own key ≡ i)
      × (length ((change_all changes (new_route own size)).buckets i) ≤ size)
change_all-buckets own key size i changes there =
    let routed =
      change_all-IsRouted own size changes (new_route own size) (new_route-IsRouted own size) in
    (routed.placed i key there, routed.bounded i)
