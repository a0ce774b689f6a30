-- ===== src/Applog/Tests.antt =====
-- A ring of four bytes that wraps.
use mcu_sdk.Base.{◌≡◌, refl, arith, codes, [], ◌∷◌, List, Bytes, room}
use mcu_sdk.Applog.{empty, snapshot, out_write, process, init, panic, dropped}
use mcu_sdk.Applog.Backend.{run_backend, run_backend-last}

abbrev pieces : List Bytes
pieces = codes "ab" ∷ codes "" ∷ codes "cdefg" ∷ []

runs : snapshot 4 (out_write 4 (empty 4) (codes "abcdefg")) (room 4) ≡ codes "efg"
unfolding snapshot out_write empty
runs = refl

run_backend-last_example :
    snapshot 4 (run_backend 4 (empty 4) (init ∷ process pieces ∷ dropped 2 ∷ panic ∷ [])) (room 9)
    ≡ codes "defg"
run_backend-last_example =
    run_backend-last 4 (init ∷ process pieces ∷ dropped 2 ∷ panic ∷ []) 9 (omega arith)
      (omega arith)
