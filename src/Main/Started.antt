-- ===== src/Main/Started.antt =====
-- The parts are stopped in the reverse order, src/snsd_main.c.
use nvme_snsd.Base.{
  ◌&&◌, ltb, ℕ, ◌≡◌, ◌||◌, if◌then◌else◌, List, [], ◌∷◌, Option, none, some, Status, success,
  failure, is_success, arith,
}
use nvme_snsd.Main.{
  Part, log, cfg, peon, server, Act, start, stop, init_ports, handle_ports, command, snsd_main,
}

-- The parts that run, the last one started first, after acts that are in order: only the last one started
-- is stopped, the ports are initialised once the peons run, and they are handled while all parts run.
unfoldable pub parts_after : List Act → List Part → Option (List Part)
parts_after [] ps = some ps
parts_after (start p ∷ acts) ps = parts_after acts (p ∷ ps)
parts_after (stop log ∷ acts) (log ∷ ps) = parts_after acts ps
parts_after (stop cfg ∷ acts) (cfg ∷ ps) = parts_after acts ps
parts_after (stop peon ∷ acts) (peon ∷ ps) = parts_after acts ps
parts_after (stop server ∷ acts) (server ∷ ps) = parts_after acts ps
parts_after (init_ports ∷ acts) (peon ∷ ps) = parts_after acts (peon ∷ ps)
parts_after (handle_ports ∷ acts) (server ∷ peon ∷ cfg ∷ log ∷ []) =
    parts_after acts (server ∷ peon ∷ cfg ∷ log ∷ [])
parts_after (command ∷ acts) [] = parts_after acts []
parts_after (a ∷ acts) ps = none

-- The program stops its parts in the reverse order of their start, and handles ports only while all of them
-- run. In the end no part is left, except that the log is still open where it was started as a daemon and
-- the configuration or the peons have failed.
pub main-parts :
    (argc : ℕ) (cfg_init peon_init server_run : Status)
    → parts_after (snsd_main argc cfg_init peon_init server_run).0 []
      ≡ some (if ltb 1 argc || (is_success cfg_init && is_success peon_init) then [] else log ∷ [])
unfolding snsd_main parts_after
main-parts argc success success success = ground arith
main-parts argc success success (failure e) = ground arith
main-parts argc success (failure e) s = ground arith
main-parts argc (failure e) p s = ground arith
