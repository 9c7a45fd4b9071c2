-- ===== src/Consensus/Channel/Message.antt =====
-- What a signature of a withdrawal binds: the message of `_withdraw_message` of
-- src/astreum/consensus/transaction/channel/withdraw.py.
use native.Mathlib.Nat.{pow-suc}
use lib_py.Base.{
  ℕ, zero, suc, ◌*◌, ◌/◌, ◌%◌, ◌^◌, ◌<◌, ◌≡◌, refl, sym, ap, ◌∙◌, inl, inr, some, ◌∷◌, ◌++◌, length,
  Option-cases, ltb, arith, if-eq-some, ltb→lt,
}
use lib_py.Base.Int.{ℤ, pos, negsuc}
use lib_py.Base.Bytes.{Bytes, append-inj}
use lib_py.Consensus.Channel.{little, to_bytes_little, withdraw_message}

length-little : (w n : ℕ) → length (little w n) ≡ w
unfolding little
length-little zero n = refl
length-little (suc w) n = ap suc (length-little w (n / 256))

little-inj : (w n m : ℕ) → n < 256 ^ w → m < 256 ^ w → little w n ≡ little w m → n ≡ m
unfolding little
little-inj zero n m h k e = omega arith
little-inj (suc w) n m h k e =
    let low : n % 256 ≡ m % 256 = cc in
    let high : little w (n / 256) ≡ little w (m / 256) = cc in
    let p : 256 ^ suc w ≡ 256 * 256 ^ w = omega (arith, pow-suc 256 w) in
    let rest : n / 256 ≡ m / 256 =
      little-inj w (n / 256) (m / 256) (omega arith) (omega arith) high in
    omega arith

to_bytes_little-length : (w : ℕ) (n : ℤ) {b : Bytes} → to_bytes_little w n ≡ some b → length b ≡ w
unfolding to_bytes_little
to_bytes_little-length w (pos n) h =
    let (fits, e) = if-eq-some (ltb n (256 ^ w)) h in ap length (sym e) ∙ length-little w n
to_bytes_little-length w (negsuc n) h = cc

to_bytes_little-inj :
    (w : ℕ) (n m : ℤ) {b : Bytes}
    → to_bytes_little w n ≡ some b
    → to_bytes_little w m ≡ some b
    → n ≡ m
unfolding to_bytes_little
to_bytes_little-inj w (pos n) (pos m) h k =
    let (fits, e) = if-eq-some (ltb n (256 ^ w)) h in
    let (fits', e') = if-eq-some (ltb m (256 ^ w)) k in
    ap pos (little-inj w n m (ltb→lt n (256 ^ w) fits) (ltb→lt m (256 ^ w) fits') (e ∙ sym e'))
to_bytes_little-inj w (negsuc n) m h k = cc
to_bytes_little-inj w (pos n) (negsuc m) h k = cc

-- The parts of a message that is there.
withdraw_message-parts :
    (chain counter amount : ℤ) (payer recipient message : Bytes)
    → withdraw_message chain payer recipient counter amount ≡ some message
    → (a : Bytes) × (b : Bytes) × (c : Bytes) × (to_bytes_little 8 chain ≡ some a)
      × (to_bytes_little 8 counter ≡ some b)
      × (to_bytes_little 8 amount ≡ some c)
      × (message ≡ 2 ∷ (a ++ (payer ++ (recipient ++ (b ++ c)))))
unfolding withdraw_message
withdraw_message-parts chain counter amount payer recipient message h =
    elim (Option-cases (to_bytes_little 8 chain)) [
      | inl absent ↦ absurd (grind arith)
      | inr (a, e) ↦ elim (Option-cases (to_bytes_little 8 counter)) [
        | inl absent ↦ absurd (grind arith)
        | inr (b, f) ↦ elim (Option-cases (to_bytes_little 8 amount)) [
          | inl absent ↦ absurd (grind arith)
          | inr (c, g) ↦ (a, b, c, e, f, g, grind arith)
        ]
      ]
    ]

-- Two withdrawals of payers and recipients of equal length with the same message to sign are of
-- the same chain, payer, recipient, counter and amount.
pub withdraw_message-inj :
    (chain chain' counter counter' amount amount' : ℤ)
    (payer payer' recipient recipient' message : Bytes)
    → length payer ≡ length payer'
    → length recipient ≡ length recipient'
    → withdraw_message chain payer recipient counter amount ≡ some message
    → withdraw_message chain' payer' recipient' counter' amount' ≡ some message
    → (chain ≡ chain')
      × (payer ≡ payer')
      × (recipient ≡ recipient')
      × (counter ≡ counter')
      × (amount ≡ amount')
withdraw_message-inj chain chain' counter counter' amount amount' payer payer' recipient recipient'
      message lp lr h h' =
    let (a, b, c, e, f, g, m) =
      withdraw_message-parts chain counter amount payer recipient message h in
    let (a', b', c', e', f', g', m') =
      withdraw_message-parts chain' counter' amount' payer' recipient' message h' in
    let whole : a ++ (payer ++ (recipient ++ (b ++ c)))
        ≡ a' ++ (payer' ++ (recipient' ++ (b' ++ c'))) =
      cc in
    let (p, t) =
      append-inj a _ a' _
        (to_bytes_little-length 8 chain e ∙ sym (to_bytes_little-length 8 chain' e')) whole in
    let (q, u) = append-inj payer _ payer' _ lp t in
    let (r, v) = append-inj recipient _ recipient' _ lr u in
    let (s, w) =
      append-inj b _ b' _
        (to_bytes_little-length 8 counter f ∙ sym (to_bytes_little-length 8 counter' f')) v in
    (
      to_bytes_little-inj 8 chain chain' e (e' ∙ ap some (sym p)),
      q,
      r,
      to_bytes_little-inj 8 counter counter' f (f' ∙ ap some (sym s)),
      to_bytes_little-inj 8 amount amount' g (g' ∙ ap some (sym w)),
    )
