-- ===== src/Communication/MessagePow/Search.antt =====
-- The nonce search of a message.
use lib_py.Base.{
  ℕ, zero, suc, ◌+◌, ◌≤◌, ◌<◌, ◌≡◌, refl, ◌⊎◌, inl, inr, max, some, ◌++◌, arith, leb, ltb, false,
  Bool-cases, subst, ltb→lt,
}
use native.Mathlib.Decide.{dec_lt}
use lib_py.Base.Bytes.{Bytes, to_bytes_big}
use lib_py.Communication.MessagePow.{
  nonce_size, max_message_nonce, leading_zero_bits, Found, nonce, exhausted, search_nonce,
  calculate_message_nonce,
}

module _ (blake3 : Bytes → Bytes) (message : Bytes) where
  -- The leading zero bits that a nonce gives the message.
  abbrev pub zeros : ℕ → ℕ
  zeros n = leading_zero_bits (blake3 (message ++ to_bytes_big nonce_size n))

  -- What a result of the search from `start` says.
  abbrev IsFirst : ℕ → ℕ → Found → Type 0
  IsFirst target start (nonce n) =
      (start ≤ n)
      × (n ≤ max_message_nonce)
      × (target ≤ zeros n)
      × ((k : ℕ) → start ≤ k → k < n → zeros k < target)
  IsFirst target start exhausted = (k : ℕ) → start ≤ k → k ≤ max_message_nonce → zeros k < target

  -- A nonce that fails can be added in front.
  IsFirst-step :
      (target start : ℕ) (r : Found)
      → zeros start < target
      → IsFirst target (start + 1) r
      → IsFirst target start r
  IsFirst-step target start (nonce n) miss h = (
    omega (arith, h.0),
    h.1,
    h.2,
    λ k lo hi. elim (dec_lt start k) [
      | yes later ↦ h.3 k (omega arith) hi
      | no here ↦ let e : k ≡ start = omega arith in rw e miss
    ],
  )
  IsFirst-step target start exhausted miss h = λ k lo hi. elim (dec_lt start k) [
    | yes later ↦ h k (omega arith) hi
    | no here ↦ let e : k ≡ start = omega arith in rw e miss
  ]

  search_nonce-IsFirst :
      (f target start : ℕ) {r : Found}
      → search_nonce blake3 f message target start ≡ some r
      → IsFirst target start r
  unfolding search_nonce
  search_nonce-IsFirst zero target start h = cc
  search_nonce-IsFirst (suc f) target start {r} h =
      elim (Bool-cases (ltb max_message_nonce start)) [
        | inl past ↦
            let h' : some exhausted ≡ some r = rw past at h in
            let e : exhausted ≡ r = cc in
            subst (IsFirst target start) e
              (λ k lo hi. absurd (omega (arith, ltb→lt max_message_nonce start past)))
        | inr within ↦ elim (Bool-cases (leb target (zeros start))) [
          | inl hit ↦
              let h' : some (nonce start) ≡ some r = rw (within, hit) at h in
              let e : nonce start ≡ r = cc in
              subst (IsFirst target start) e
                (omega arith, ground arith, ground arith, λ k lo hi. absurd (omega arith))
          | inr miss ↦
              IsFirst-step target start r (ground arith)
                (search_nonce-IsFirst f target (start + 1) (rw (within, miss) at h))
        ]
      ]

  ltb-false : (a b : ℕ) → ltb a b ≡ false → b ≤ a
  ltb-false a b h = ground arith

  -- The search ends once the fuel reaches past the last nonce.
  search_nonce_total :
      (f target start : ℕ)
      → max_message_nonce + 1 < start + f
      → start ≤ max_message_nonce + 1
      → (r : Found) × (search_nonce blake3 f message target start ≡ some r)
  unfolding search_nonce
  search_nonce_total zero target start h p = absurd (omega arith)
  search_nonce_total (suc f) target start h p = elim (Bool-cases (ltb max_message_nonce start)) [
    | inl past ↦ (exhausted, rw past refl)
    | inr within ↦ elim (Bool-cases (leb target (zeros start))) [
      | inl hit ↦ (nonce start, rw (within, hit) refl)
      | inr miss ↦
          let (r, e) =
            search_nonce_total f target (start + 1) (omega arith)
              (omega (arith, ltb-false max_message_nonce start within)) in
          (r, rw (within, miss) e)
    ]
  ]

-- A nonce that `calculate_message_nonce` returns fits in 64 bits and gives the message the leading
-- zero bits that are asked for, at least one, and it is the first such nonce.
pub calculate_message_nonce_first :
    (blake3 : Bytes → Bytes) (fuel : ℕ) (message : Bytes) (difficulty n k : ℕ)
    → calculate_message_nonce blake3 fuel message difficulty ≡ some (nonce n)
    → (n ≤ max_message_nonce)
      × (max 1 difficulty ≤ zeros blake3 message n)
      × ((n ≤ k) ⊎ (zeros blake3 message k < max 1 difficulty))
unfolding calculate_message_nonce
calculate_message_nonce_first blake3 fuel message difficulty n k h =
    let r = search_nonce-IsFirst blake3 message fuel (max 1 difficulty) 0 h in
    (
      r.1,
      r.2,
      elim (dec_lt k n) [
        | yes before ↦ inr (r.3 k (omega arith) before)
        | no after ↦ inl (omega arith)
      ],
    )

-- `calculate_message_nonce` raises only if no 64-bit nonce gives the leading zero bits.
pub calculate_message_nonce_exhausted :
    (blake3 : Bytes → Bytes) (fuel : ℕ) (message : Bytes) (difficulty k : ℕ)
    → calculate_message_nonce blake3 fuel message difficulty ≡ some exhausted
    → k ≤ max_message_nonce
    → zeros blake3 message k < max 1 difficulty
unfolding calculate_message_nonce
calculate_message_nonce_exhausted blake3 fuel message difficulty k h le =
    search_nonce-IsFirst blake3 message fuel (max 1 difficulty) 0 h k (omega arith) le

-- `calculate_message_nonce` ends: a fuel above 2 ^ 64 is enough.
pub calculate_message_nonce_total :
    (blake3 : Bytes → Bytes) (fuel : ℕ) (message : Bytes) (difficulty : ℕ)
    → max_message_nonce + 1 < fuel
    → (r : Found) × (calculate_message_nonce blake3 fuel message difficulty ≡ some r)
unfolding calculate_message_nonce
calculate_message_nonce_total blake3 fuel message difficulty h =
    search_nonce_total blake3 message fuel (max 1 difficulty) 0 (omega arith) (omega arith)
