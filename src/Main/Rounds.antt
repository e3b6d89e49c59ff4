-- ===== src/Main/Rounds.antt =====
-- When the loop over the ports looks after the frames of the switched ports, src/snsd_main.c.
use nvme_snsd.Base.{ℕ, ◌-◌, ◌*◌, ◌/◌, ◌≡◌, ◌≢◌, List, none}
use nvme_snsd.Switch.Port.{SwitchPort}
use nvme_snsd.Main.{Round, Ports}

-- Bringing the list of switched ports up to date does not fail.
abbrev pub Reads : Round → Type 0
Reads r = (n : ℕ) (ports : List SwitchPort) → r.sw_info n ports ≢ none

-- The frames were looked after at the last poll whose count, less one for the next one, is a multiple of 100.
abbrev Due : ℕ → Ports → Type 0
Due n s = (s.poll_count ≡ n) × (s.count ≡ (n - 1) / 100 * 100)
