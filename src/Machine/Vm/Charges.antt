-- ===== src/Machine/Vm/Charges.antt =====
-- Charges that are accepted, and actions that follow an accepted one.
use lib_py.Base.{ℕ, ◌≡◌, refl, ap, false, none, some}
use lib_py.Base.Int.{ℤ, pos, ◌≤ℤ◌, int_laws}
use lib_py.Machine.Meter.{Meter, total, charge_bytes, add_charge, charge as charge_meter, charged}
use lib_py.Machine.Vm.{Vm, ok, Action, next, ◌>>=◌, spend}

-- A meter that has not passed its limit.
abbrev pub WithinLimit : Vm → Type 0
WithinLimit vm = (limit : ℤ) × (vm.meter.limit ≡ some limit) × (total vm.meter ≤ℤ limit)

charge_bytes_zero :
    (m : Meter) (limit : ℤ)
    → m.limit ≡ some limit
    → total m ≤ℤ limit
    → charge_bytes (pos 0) false m ≡ (m, charged)
unfolding charge_bytes charge_meter add_charge total
charge_bytes_zero m limit e h = grind int_laws

-- No charge is refused where nothing is charged, or there is no limit.
pub charge_zero : (vm : Vm) → WithinLimit vm → spend 0 vm ≡ (ok tt, vm)
unfolding spend
charge_zero vm (limit, e, h) = rw (charge_bytes_zero vm.meter limit e h) refl

charge_bytes_unlimited :
    (n : ℕ) (m : Meter) → m.limit ≡ none → charge_bytes (pos n) false m ≡ (m, charged)
unfolding charge_bytes charge_meter
charge_bytes_unlimited n m e = rw e refl

pub charge_unlimited : (n : ℕ) (vm : Vm) → vm.meter.limit ≡ none → spend n vm ≡ (ok tt, vm)
unfolding spend
charge_unlimited n vm e = rw (charge_bytes_unlimited n vm.meter e) refl

pub bind_ok :
    {A B : Type 0} (m : Action A) (f : A → Action B) {vm vm' : Vm} {a : A}
    → m vm ≡ (ok a, vm')
    → (m >>= f) vm ≡ f a vm'
bind_ok m f e = ap (next f) e
