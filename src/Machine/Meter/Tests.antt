-- ===== src/Machine/Meter/Tests.antt =====
-- A meter with a limit of 10.
use lib_py.Base.{◌≡◌, refl, some, List, [], ◌∷◌}
use lib_py.Base.Int.{ℤ, pos, negsuc, ◌+ℤ◌}
use lib_py.Machine.Meter.{
  new_meter, total, Kind, eval_kind, storage_kind, unknown_kind, add_charge, charge, charge_all,
}

abbrev charges : List (ℤ × Kind)
charges =
    (pos 4, eval_kind)
    ∷ (pos 8, storage_kind)
    ∷ (negsuc 2, storage_kind)
    ∷ (pos 6, storage_kind)
    ∷ (pos 1, unknown_kind)
    ∷ []

charge_all_run :
    charge_all charges (new_meter (some (pos 10)))
    ≡ record { limit = some (pos 10); eval = pos 4; storage = pos 6 }
unfolding charge_all charge add_charge total ◌+ℤ◌
charge_all_run = refl
