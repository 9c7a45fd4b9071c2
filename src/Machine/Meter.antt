-- ===== src/Machine/Meter.antt =====
-- The meter of an evaluation: src/astreum/machine/meter.py. The lock makes a charge one step.
pub mod Budget
mod Tests
use lib_py.Base.{ℕ, ◌^◌, Bool, true, false, Option, none, some, List, [], ◌∷◌, if◌then◌else◌}
use lib_py.Base.Int.{ℤ, pos, ◌+ℤ◌, ◌-ℤ◌, ltb_ℤ, max_ℤ}

pub record Meter : Type 0 where
  pub limit : Option ℤ
  pub eval : ℤ
  pub storage : ℤ

-- `Meter(limit)`.
abbrev pub new_meter : Option ℤ → Meter
new_meter limit = record { limit = limit; eval = pos 0; storage = pos 0 }

-- The property `total`.
unfoldable pub total : Meter → ℤ
total m = m.eval +ℤ m.storage

pub remaining : Meter → ℤ
unfolding total
remaining m = elim m.limit [ none ↦ pos (2 ^ 62) | some limit ↦ max_ℤ (pos 0) (limit -ℤ total m) ]

-- The string `kind`.
pub data Kind : Type 0 where
  eval_kind storage_kind unknown_kind : Kind

-- `True`, the MeterExceededError, and the ValueError of an unknown kind.
pub data Charge : Type 0 where
  charged exceeded unknown : Charge

-- The sum of an accepted charge: `n` is not negative here.
unfoldable pub add_charge : Kind → ℤ → Meter → Meter × Charge
add_charge eval_kind n m = (record m { eval = m.eval +ℤ n }, charged)
add_charge storage_kind n m = (record m { storage = m.storage +ℤ n }, charged)
add_charge unknown_kind n m = (m, unknown)

unfoldable pub charge : ℤ → Kind → Meter → Meter × Charge
charge n kind m = elim m.limit [
  | none ↦ (m, charged)
  | some limit ↦
      let amount : ℤ = if ltb_ℤ n (pos 0) then pos 0 else n in
      if ltb_ℤ limit (total m +ℤ amount) then (m, exceeded) else add_charge kind amount m
]

unfoldable pub charge_bytes : ℤ → Bool → Meter → Meter × Charge
charge_bytes n is_storage m = charge n (if is_storage then storage_kind else eval_kind) m

-- Charges in a row, refused ones included.
pub charge_all : List (ℤ × Kind) → Meter → Meter
charge_all [] m = m
charge_all ((n, kind) ∷ rest) m = charge_all rest (charge n kind m).0
