-- ===== src/Driver/Fits.antt =====
-- The options of a connection fit into their buffer, src/snsd_conn_nvme.c.
use nvme_snsd.Base.{
  ◌⊎◌, ℕ, zero, suc, ◌+◌, ◌/◌, ◌%◌, ◌≤◌, ◌<◌, ◌≡◌, List, [], ◌∷◌, ◌++◌, length, get_elem?, arith,
}
use nvme_snsd.Config.Options.{Value, codes}
use nvme_snsd.Config.Items.{CfgInfos, Config, text_of}
use nvme_snsd.Driver.{NvmeCtx}
use nvme_snsd.Driver.Options.{decimal_onto}

pub length-decimal_onto :
    (f n : ℕ) (rest : List ℕ) → length (decimal_onto f n rest) ≤ f + length rest
unfolding decimal_onto
length-decimal_onto zero n rest = omega arith
length-decimal_onto (suc f) n rest =
    ground (arith, length-decimal_onto f (n / 10) ((48 + n % 10) ∷ rest))

abbrev pub concat : List (List ℕ) → List ℕ
concat [] = []
concat (s ∷ ss) = s ++ concat ss

abbrev total : List (List ℕ) → ℕ
total [] = 0
total (s ∷ ss) = length s + total ss

-- The texts of a context that `snprintf`, `strncpy` and `inet_ntop` have written.
pub record FitsCtx (ctx : NvmeCtx) : Type 0 where
  pub transport : length ctx.transport ≤ 7
  pub trsvcid : length ctx.trsvcid ≤ 7
  pub traddr : length ctx.traddr ≤ 63
  pub host_traddr : length ctx.host_traddr ≤ 63
  pub subsysnqn : length ctx.subsysnqn ≤ 255

-- The texts of the configuration, in arrays of their declared sizes.
pub record FitsConfig (net : CfgInfos) (base : List Value) (hostnqn : List ℕ) : Type 0 where
  pub cfg_hostnqn : length (text_of (get_elem? net.values 4)) ≤ 255
  pub cfg_hostid : length (text_of (get_elem? net.values 5)) ≤ 36
  pub base_hostid : length (text_of (get_elem? base 3)) ≤ 36
  pub base_hostnqn : length hostnqn ≤ 255

-- A text stands somewhere in another.
abbrev pub Contains : List ℕ → List ℕ → Type 0
Contains needle text =
    (before : List ℕ) × ((behind : List ℕ) × (text ≡ before ++ (needle ++ behind)))

-- The options fit, and their text is the one that was given, if `ctrl_loss_tmo=` stands in it, or that text
-- with the time of 1800 seconds behind it.
abbrev pub Sound : List ℕ → List ℕ → Type 0
Sound out text =
    (length text < 1024)
    × (((text ≡ out) × Contains (codes "ctrl_loss_tmo=") out)
        ⊎ (text ≡ out ++ codes ",ctrl_loss_tmo=1800"))
