-- ===== src/Server/Attack.antt =====
-- The attack monitor of src/snsd_server.c: `snsd_listener_state_change` and
-- `snsd_listener_monitor`.
use nvme_snsd.Base.{
  ℕ, suc, ◌+◌, ◌-◌, ◌≡◌, ◌≤◌, ◌<◌, Bool, true, false, ltb, leb, if◌then◌else◌, List, [], ◌∷◌, map,
  arith, u32,
}
use nvme_snsd.Server.Listener.{Listener}

-- `SNSD_SERVER_MONITOR_PERIOD`, `SNSD_SERVER_FLOOD_ATTACK_THRESHOLD`,
-- `SNSD_SERVER_RECOVERY_CYCLES`.
abbrev pub snsd_detect_period : ℕ
snsd_detect_period = 500

abbrev pub snsd_attack_threshold : ℕ
snsd_attack_threshold = 500

abbrev pub snsd_attack_recovery_period : ℕ
snsd_attack_recovery_period = 20

-- `snsd_listener_state_change`. The interval is an `unsigned int`.
unfoldable pub snsd_listener_state_change : Listener → Bool → Listener
snsd_listener_state_change l true =
    if l.drop then l else record l { drop_interval = 0; drop = true }
snsd_listener_state_change l false =
    if l.drop
    then (if ltb snsd_attack_recovery_period (u32 (l.drop_interval + 1))
        then record l { drop_interval = u32 (l.drop_interval + 1); drop = false }
        else record l { drop_interval = u32 (l.drop_interval + 1) })
    else l

-- Whether the messages since the last sample are an attack.
unfoldable pub is_attack : ℕ → ℕ → Bool
is_attack cur last =
    if ltb last cur then (if leb snsd_attack_threshold (cur - last) then true else false) else false

-- The body of the loop of `snsd_listener_monitor`.
unfoldable pub sample : Listener → Listener
unfolding snsd_listener_state_change is_attack
sample l =
    snsd_listener_state_change (record l { last_samp_cnt = l.rcv_cnt })
      (is_attack l.rcv_cnt l.last_samp_cnt)

-- `snsd_listener_monitor` at the time `now`, with the time of the last sample. Where the clock has
-- gone back, the difference is negative and below the period.
unfoldable pub snsd_listener_monitor : ℕ → ℕ → List Listener → ℕ × List Listener
unfolding sample
snsd_listener_monitor now last_semp_time ls =
    if ltb now (last_semp_time + snsd_detect_period)
    then (last_semp_time, ls)
    else (now, map sample ls)

-- `count` samples, with `traffic` messages received before each.
unfoldable pub samples : List ℕ → Listener → Listener
unfolding sample
samples [] l = l
samples (n ∷ ns) l = samples ns (sample (record l { rcv_cnt = l.rcv_cnt + n }))

-- A sample after 500 messages or more starts the dropping, from a count of 0; where the listener
-- drops already it leaves the count of calm samples as it was.
pub sample_attacked :
    (l : Listener)
    → l.last_samp_cnt + snsd_attack_threshold ≤ l.rcv_cnt
    → ((sample l).drop ≡ true)
      × ((sample l).drop_interval ≡ (if l.drop then l.drop_interval else 0))
unfolding sample
sample_attacked l h = ground arith

-- The count of the calm samples in a list of traffic.
abbrev pub calm : List ℕ → ℕ
calm [] = 0
calm (n ∷ ns) = let rest = calm ns in if ltb n snsd_attack_threshold then suc rest else rest

sample_dropping :
    (l : Listener) (n : ℕ)
    → l.drop ≡ true
    → l.rcv_cnt ≡ l.last_samp_cnt
    → l.drop_interval + calm (n ∷ []) ≤ snsd_attack_recovery_period
    → let l' = sample (record l { rcv_cnt = l.rcv_cnt + n }) in
      (l'.drop ≡ true)
      × (l'.rcv_cnt ≡ l'.last_samp_cnt)
      × (l'.drop_interval ≡ l.drop_interval + calm (n ∷ []))
unfolding sample
sample_dropping l n d e h = ground arith

calm-cons : (n : ℕ) (ns : List ℕ) → calm (n ∷ ns) ≡ calm (n ∷ []) + calm ns
calm-cons n ns = ground arith

-- A listener that drops messages, and has counted all it has received, goes on to drop, whatever
-- it receives, while the samples with fewer than 500 messages are at most 20 in all; the samples
-- of a new attack between them do not start the count again.
samples_still_dropping :
    (ns : List ℕ) (l : Listener)
    → l.drop ≡ true
    → l.rcv_cnt ≡ l.last_samp_cnt
    → l.drop_interval + calm ns ≤ snsd_attack_recovery_period
    → ((samples ns l).drop ≡ true)
      × ((samples ns l).rcv_cnt ≡ (samples ns l).last_samp_cnt)
      × ((samples ns l).drop_interval ≡ l.drop_interval + calm ns)
unfolding samples
samples_still_dropping [] l d e h = (d, e, omega arith)
samples_still_dropping (n ∷ ns) l d e h =
    let s = sample_dropping l n d e (omega (arith, calm-cons n ns)) in
    let l' = sample (record l { rcv_cnt = l.rcv_cnt + n }) in
    let r = samples_still_dropping ns l' s.0 s.1 (omega (arith, calm-cons n ns, s.2)) in
    (r.0, r.1, omega (arith, calm-cons n ns, s.2, r.2))

sample_recovers :
    (l : Listener) (n : ℕ)
    → l.rcv_cnt ≡ l.last_samp_cnt
    → l.drop_interval ≡ snsd_attack_recovery_period
    → n < snsd_attack_threshold
    → (sample (record l { rcv_cnt = l.rcv_cnt + n })).drop ≡ false
unfolding sample
sample_recovers l n e h c = ground arith

-- A listener that has begun to drop messages, with all that it has received counted, takes them
-- again at the 21st sample with fewer than 500 messages, wherever the first 20 of those stand in
-- the traffic before it.
samples_recover :
    (ns : List ℕ) (n : ℕ) (l : Listener)
    → l.drop ≡ true
    → l.rcv_cnt ≡ l.last_samp_cnt
    → l.drop_interval ≡ 0
    → calm ns ≡ snsd_attack_recovery_period
    → n < snsd_attack_threshold
    → ((samples ns l).drop ≡ true) × ((samples (n ∷ []) (samples ns l)).drop ≡ false)
unfolding samples
samples_recover ns n l d e z c h =
    let r = samples_still_dropping ns l d e (omega arith) in
    (r.0, sample_recovers (samples ns l) n r.1 (omega (arith, r.2)) h)
