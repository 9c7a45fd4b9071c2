-- ===== src/Machine/Meter/Budget.antt =====
-- A meter with a limit never passes it.
use lib_py.Base.{
  ◌≡◌, refl, ◌⊎◌, inl, inr, Bool, true, false, some, List, [], ◌∷◌, if◌then◌else◌, Bool-cases,
  arith,
}
use lib_py.Base.Int.{ℤ, pos, ◌+ℤ◌, ◌-ℤ◌, ◌≤ℤ◌, ◌<ℤ◌, ltb_ℤ, max_ℤ, int_laws}
use lib_py.Machine.Meter.{
  Meter, new_meter, total, remaining, Kind, eval_kind, storage_kind, unknown_kind, Charge, charged,
  exceeded, add_charge, charge, charge_bytes, charge_all,
}

-- What an accepted charge adds to the total.
abbrev pub counted : ℤ → Charge → Kind → ℤ
counted n charged unknown_kind = pos 0
counted n charged kind = if ltb_ℤ n (pos 0) then pos 0 else n
counted n outcome kind = pos 0

-- Within a limit.
record Within (limit : ℤ) (m : Meter) : Type 0 where
  limited : m.limit ≡ some limit
  eval_nonneg : pos 0 ≤ℤ m.eval
  storage_nonneg : pos 0 ≤ℤ m.storage
  below : total m ≤ℤ limit

charge-Within :
    (limit n : ℤ) (kind : Kind) (m : Meter)
    → Within limit m
    → Within limit (charge n kind m).0
      × (total (charge n kind m).0 ≡ total m +ℤ counted n (charge n kind m).1 kind)
unfolding charge add_charge total
charge-Within limit n eval_kind m h = (
  record {
    limited = grind int_laws;
    eval_nonneg = grind int_laws;
    storage_nonneg = grind int_laws;
    below = grind int_laws;
  },
  grind int_laws,
)
charge-Within limit n storage_kind m h = (
  record {
    limited = grind int_laws;
    eval_nonneg = grind int_laws;
    storage_nonneg = grind int_laws;
    below = grind int_laws;
  },
  grind int_laws,
)
charge-Within limit n unknown_kind m h = (
  record {
    limited = grind int_laws;
    eval_nonneg = grind int_laws;
    storage_nonneg = grind int_laws;
    below = grind int_laws;
  },
  grind int_laws,
)

charge_all-Within :
    (limit : ℤ) (charges : List (ℤ × Kind)) (m : Meter)
    → Within limit m
    → Within limit (charge_all charges m)
unfolding charge_all
charge_all-Within limit [] m h = h
charge_all-Within limit ((n, kind) ∷ rest) m h =
    charge_all-Within limit rest (charge n kind m).0 (charge-Within limit n kind m h).0

new_meter-Within : (limit : ℤ) → pos 0 ≤ℤ limit → Within limit (new_meter (some limit))
unfolding total ◌+ℤ◌
new_meter-Within limit h = record {
  limited = refl;
  eval_nonneg = omega arith;
  storage_nonneg = omega arith;
  below = h;
}

max_ℤ_of_nonneg : (a : ℤ) → pos 0 ≤ℤ a → max_ℤ (pos 0) a ≡ a
max_ℤ_of_nonneg a h = ground arith

-- After any charges, accepted or refused, of a new meter with a limit that is not negative, neither
-- sum is negative, their total is within the limit, and `remaining` is the limit less the total.
pub charge_all_bounds :
    (limit : ℤ) (charges : List (ℤ × Kind))
    → pos 0 ≤ℤ limit
    → let m = charge_all charges (new_meter (some limit)) in
      (pos 0 ≤ℤ m.eval)
      × (pos 0 ≤ℤ m.storage)
      × (total m ≤ℤ limit)
      × (remaining m ≡ limit -ℤ total m)
unfolding remaining
charge_all_bounds limit charges h =
    let w = charge_all-Within limit charges (new_meter (some limit)) (new_meter-Within limit h) in
    (
      w.eval_nonneg,
      w.storage_nonneg,
      w.below,
      rw (remaining, w.limited)
          (max_ℤ_of_nonneg (limit -ℤ total (charge_all charges (new_meter (some limit))))
            (grind (int_laws, w.below))),
    )

-- On a meter with a limit, `charge_bytes` is accepted exactly if the total and the amount, with a negative amount
-- as 0, are within the limit; it then adds the amount to the total, and else it changes nothing.
pub charge_exact :
    (limit n : ℤ) (is_storage : Bool) (m : Meter)
    → m.limit ≡ some limit
    → let amount = max_ℤ (pos 0) n in
      let r = charge_bytes n is_storage m in
      ((r.1 ≡ charged) × (total m +ℤ amount ≤ℤ limit) × (total r.0 ≡ total m +ℤ amount))
      ⊎ ((r.1 ≡ exceeded) × (limit <ℤ total m +ℤ amount) × (r.0 ≡ m))
unfolding charge_bytes charge add_charge total
charge_exact limit n true m h = elim (Bool-cases (ltb_ℤ limit (total m +ℤ max_ℤ (pos 0) n))) [
  | inl over ↦ inr (grind int_laws, grind int_laws, grind int_laws)
  | inr fits ↦ inl (grind int_laws, grind int_laws, grind int_laws)
]
charge_exact limit n false m h = elim (Bool-cases (ltb_ℤ limit (total m +ℤ max_ℤ (pos 0) n))) [
  | inl over ↦ inr (grind int_laws, grind int_laws, grind int_laws)
  | inr fits ↦ inl (grind int_laws, grind int_laws, grind int_laws)
]
