-- ===== src/Tests/Fabrics.antt =====
-- Runs of the making of a controller.
use nvme_snsd.Base.{
  ℕ, ◌≡◌, refl, List, [], ◌++◌, length, some, none, inr, pos, eagain, Status, success, failure,
  arith,
}
use nvme_snsd.Config.Options.{codes}
use nvme_snsd.Driver.{LogEntry}
use nvme_snsd.Driver.Create.{
  Fabrics, instance_made, snsd_nvme_ctrl_parse_instance, strtol, digits_in, device_name, or_efault,
  snsd_nvme_disc_get_log,
}
use nvme_snsd.Driver.Created.{reply, disc_get_log-announced}

hex_read : strtol (codes " 0x1F,") ≡ some (pos 31)
unfolding strtol digits_in
hex_read = refl

reply_read : snsd_nvme_ctrl_parse_instance (codes "instance=12,cntlid=3") ≡ instance_made 12
unfolding snsd_nvme_ctrl_parse_instance digits_in
reply_read = refl

-- A kernel that makes its fifth controller.
abbrev kernel : Fabrics
kernel = record {
  opened = success;
  write = λ arg. (pos (length arg), none);
  read = λ arg. inr (reply 4 1);
}

-- A device that cannot be read.
abbrev no_log : List ℕ → Status × List LogEntry
no_log path = (failure eagain, [])

disc_get_log-announced_example :
    snsd_nvme_disc_get_log kernel no_log (codes "traddr=1.1.1.1")
    ≡ (or_efault (no_log (codes "/dev/" ++ device_name 4)), some (device_name 4))
disc_get_log-announced_example =
    disc_get_log-announced kernel no_log (codes "traddr=1.1.1.1") 4 1 refl refl refl (omega arith)
