-- ===== src/Switch/Poll.antt =====
-- The polls of src/snsd_switch.c and src/snsd_switch.h: when ports are looked at, when their LLDP
-- frames are sent, and the disconnection of a port that goes down.
use nvme_snsd.Base.{
  ℕ, ◌+◌, ◌-◌, ◌≡◌, ◌≤◌, ◌<◌, Bool, true, false, not, ltb, leb, if◌then◌else◌, List, [], u32,
  Status, success, is_success, arith, test_bit, or_bit, clear_bit,
}
use nvme_snsd.Net.{ConnectParam, is_linkup}
use nvme_snsd.Connect.{
  Added, Templates, snsd_disconnect_by_host_traddr, disconnect_by_host_traddr-success,
}

-- `switch_need_check_lldp`; `SWITCH_POLL_INTEVAL` is 100 polls. The arithmetic is unsigned 32-bit.
unfoldable pub switch_need_check_lldp : ℕ → ℕ → Bool
switch_need_check_lldp pre_count now =
    let interval =
      if leb pre_count now then now - pre_count else u32 (u32 (4294967295 - now + pre_count) + 1) in
    leb 100 interval

-- On two 32-bit counts of the polls, the ports are due when the counts differ by 100 or more
-- either way: after the count has wrapped, what decides is not the number of polls since the last
-- look.
need_check_lldp-differ :
    (pre_count now : ℕ)
    → pre_count < 4294967296
    → now < 4294967296
    → switch_need_check_lldp pre_count now ≡ leb 100 (now - pre_count + (pre_count - now))
unfolding switch_need_check_lldp
need_check_lldp-differ pre_count now h1 h2 = ground arith

-- `struct lldp_run_info`, less its place in the table of sockets.
pub record LldpRunInfo : Type 0 where
  pub valid : Bool
  pub expires : ℕ
  pub interval_clock : ℕ
  -- Bit 0 is `LLDP_FLAG_DISCONNECT`.
  pub flags : ℕ

-- `calc_expires_for_new`, on the `old_time` of the entry.
unfoldable pub calc_expires_for_new : ℕ → ℕ → ℕ
calc_expires_for_new old_time now = if ltb old_time now then now else old_time

-- `switch_check_lldp_send`, with what sending comes to: whether a frame is sent, and the new state.
unfoldable pub switch_check_lldp_send : Status → ℕ → ℕ → LldpRunInfo → Bool × LldpRunInfo
switch_check_lldp_send sent port_flags now lldp =
    if not (is_linkup port_flags)
    then (false, lldp)
    else if leb lldp.expires now
    then (
      true,
      record lldp { expires = if is_success sent then now + lldp.interval_clock else now },
    )
    else (false, lldp)

-- On a port that is up, once a frame has gone out at the time `now`, none goes out later before
-- the interval has passed; a frame that failed is tried again at any later look.
check_lldp_send-again :
    (sent again : Status) (flags now later : ℕ) (lldp : LldpRunInfo)
    → is_linkup flags ≡ true
    → (switch_check_lldp_send sent flags now lldp).0 ≡ true
    → now ≤ later
    → (switch_check_lldp_send again flags later (switch_check_lldp_send sent flags now lldp).1).0
      ≡ (if is_success sent then leb (now + lldp.interval_clock) later else true)
unfolding switch_check_lldp_send
check_lldp_send-again sent again flags now later lldp up went h = ground arith

module _ (worker : ConnectParam → Status) (ts : Templates) where
  abbrev flagged : LldpRunInfo → List Added × Status → LldpRunInfo × List Added
  flagged lldp (added, result) =
      (if is_success result then record lldp { flags = or_bit lldp.flags 0 } else lldp, added)

  -- `switch_port_handle_disconnect`.
  unfoldable pub switch_port_handle_disconnect :
      ℕ → List ℕ → ℕ → LldpRunInfo → LldpRunInfo × List Added
  switch_port_handle_disconnect family ip port_flags lldp =
      if not (is_linkup port_flags)
      then (if test_bit lldp.flags 0
          then (lldp, [])
          else flagged lldp (snsd_disconnect_by_host_traddr worker ts family ip))
      else (record lldp { flags = clear_bit lldp.flags 0 }, [])

  -- A port that stays down while the worker accepts the tasks is disconnected once: the next poll
  -- changes nothing and adds nothing.
  handle_disconnect_once :
      (family : ℕ) (ip : List ℕ) (port_flags : ℕ) (lldp : LldpRunInfo)
      → is_linkup port_flags ≡ false
      → ((p : ConnectParam) → worker p ≡ success)
      → switch_port_handle_disconnect family ip port_flags
          (switch_port_handle_disconnect family ip port_flags lldp).0
        ≡ ((switch_port_handle_disconnect family ip port_flags lldp).0, [])
  unfolding switch_port_handle_disconnect
  handle_disconnect_once family ip port_flags lldp down accepts =
      ground (arith, disconnect_by_host_traddr-success worker ts family ip accepts)
