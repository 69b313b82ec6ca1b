-- ===== src/Memory/MemoryRegion/Tests.antt =====
-- The theorems on memory regions at concrete regions.
use hologine.Base.{refl, inl, true, false, none, List, [], ◌∷◌, arith}
use hologine.Memory.MemoryRegion.{MemoryRegion}
use hologine.Memory.MemoryRegion.Pages.{Platform, Leads}
use hologine.Memory.MemoryRegion.Runs.{
  Operation, grow_by, claim_all, reset_to, run_region, run_region-IsValid,
}

abbrev unreserved : MemoryRegion
unreserved = record { max_size = 100000; current_size = 0; memory = 0 }

abbrev operations : List Operation
operations =
    grow_by 5000 77 true
    ∷ grow_by 100 0 true
    ∷ claim_all 0 false
    ∷ claim_all 0 true
    ∷ reset_to true true false
    ∷ []

abbrev unused : Platform
unused = record { held = none; lost = 0 }

-- The release fails, as VirtualFree documents it for a size that is not 0.
run_region-IsValid_example :
    Leads unreserved unused
      (run_region operations unreserved).0
      (run_region operations unreserved).1
run_region-IsValid_example =
    run_region-IsValid operations unreserved unused (omega arith, (omega arith, tt)) (omega arith)
      (record { bounded = omega arith; small = omega arith; behind = inl (refl, refl, refl) })
