-- ===== src/Tests/Mains.antt =====
-- Runs of src/snsd_main.c.
use nvme_snsd.Base.{
  ◌≡◌, ◌||◌, ◌&&◌, ltb, if◌then◌else◌, [], ◌∷◌, some, success, failure, is_success, eio,
}
use nvme_snsd.Main.{log, Round, snsd_main}
use nvme_snsd.Main.Started.{parts_after, main-parts}
use nvme_snsd.Tests.Ports.{accepting, nets, bonded_port, all_up}

main-parts_example :
    parts_after (snsd_main 1 success (failure eio) success).0 []
    ≡ some (if ltb 1 1 || (is_success success && is_success (failure eio)) then [] else log ∷ [])
main-parts_example = main-parts 1 success (failure eio) success

-- A round that finds a bonded port and the direct ports.
abbrev found_ports : Round
found_ports = record {
  sw_info = λ n ports. some (bonded_port ∷ []);
  dc_info = λ n ports. some nets;
  worker = accepting;
  send = λ p. success;
  link = all_up;
  send_slave = λ s. success;
  sock = λ i. some 9;
  joined = λ i. success;
  now = 100;
}
