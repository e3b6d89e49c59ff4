-- ===== src/Tests/Drivers.antt =====
-- Runs of src/snsd_conn_nvme.c.
use nvme_snsd.Base.{
  ℕ, ◌≡◌, refl, List, [], ◌∷◌, Option, some, Status, success, failure, efault, einval,
}
use nvme_snsd.Net.{sw}
use nvme_snsd.Config.Text.{str_eq}
use nvme_snsd.Config.Options.{codes}
use nvme_snsd.Driver.{
  NvmeCtx, Device, LogEntry, matching_entry, snsd_nvme_disc_get_subsysnqn, find_device,
  snsd_nvme_connect,
}
use nvme_snsd.Driver.Connected.{LiveSeen, nvme_connect-Connected}

-- A target whose subsystem is not known.
abbrev target : NvmeCtx
target = record {
  transport = codes "rdma";
  trsvcid = codes "4420";
  traddr = codes "192.168.1.2";
  host_traddr = codes "192.168.1.1";
  subsysnqn = [];
  protocol = 1;
  mode = sw;
  dname = [];
}

abbrev device : List ℕ → Device
device state = record {
  dname = codes "nvme3";
  profile = some (record target { subsysnqn = codes "nqn.array" });
  state = some state;
}

-- A record of another service, and one of the target.
abbrev entries : List LogEntry
entries =
    (record {
      trtype = 1;
      adrfam = 1;
      subtype = 2;
      trsvcid = codes "8009";
      traddr = codes "192.168.1.2";
      subnqn = codes "nqn.other";
    })
    ∷ (record {
      trtype = 1;
      adrfam = 1;
      subtype = 2;
      trsvcid = codes "4420";
      traddr = codes "192.168.1.2";
      subnqn = codes "nqn.array";
    })
    ∷ []

abbrev found_log : NvmeCtx → Status × List LogEntry
found_log ctx = (success, entries)

abbrev created : NvmeCtx → Status × Option (List Device)
created ctx = (success, some (device (codes "live") ∷ []))

abbrev named : NvmeCtx → Status × List ℕ
named = snsd_nvme_disc_get_subsysnqn str_eq str_eq found_log

connected_run :
    snsd_nvme_connect created named (some []) target
    ≡ (record target { subsysnqn = codes "nqn.array"; dname = codes "nvme3" }, success)
unfolding snsd_nvme_connect snsd_nvme_disc_get_subsysnqn matching_entry find_device str_eq
connected_run = refl

-- A controller that is there and not live is not created again.
fault_run :
    snsd_nvme_connect created named (some (device (codes "deleting") ∷ [])) target
    ≡ (record target { subsysnqn = codes "nqn.array" }, failure efault)
unfolding snsd_nvme_connect snsd_nvme_disc_get_subsysnqn matching_entry find_device str_eq
fault_run = refl

-- A log without the target.
unnamed_run :
    snsd_nvme_connect created
      (snsd_nvme_disc_get_subsysnqn str_eq str_eq λ ctx. (success, []))
      (some [])
      target
    ≡ (target, failure einval)
unfolding snsd_nvme_connect snsd_nvme_disc_get_subsysnqn matching_entry find_device str_eq
unnamed_run = refl

connected : (snsd_nvme_connect created named (some []) target).1 ≡ success
unfolding snsd_nvme_connect snsd_nvme_disc_get_subsysnqn matching_entry find_device str_eq
connected = refl

nvme_connect-Connected_example :
    LiveSeen created named
      (some [])
      target
      (snsd_nvme_connect created named (some []) target).0.dname
nvme_connect-Connected_example = nvme_connect-Connected created named (some []) target connected
