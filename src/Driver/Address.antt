-- ===== src/Driver/Address.antt =====
-- What the kernel's files say of a controller, src/snsd_conn_nvme.c. A text is its bytes before the zero.
use nvme_snsd.Base.{
  ℕ, ◌-◌, Bool, ◌||◌, ◌==◌, ltb, if◌then◌else◌, List, [], ◌∷◌, ◌++◌, take, length, Option, none,
  some, ◌>>=◌, c_string,
}
use nvme_snsd.Net.{sw}
use nvme_snsd.Config.Options.{codes}
use nvme_snsd.Driver.{NvmeCtx}

-- The text of a file without its line feed. The last byte of an empty text is looked for before the
-- buffer: none.
abbrev pub without_newline : List ℕ → List ℕ
without_newline [] = []
without_newline (c ∷ []) = if c == b'\n' then [] else c ∷ []
without_newline (c ∷ d ∷ cs) = c ∷ without_newline (d ∷ cs)

abbrev pub attr_text : List ℕ → Option (Option (List ℕ))
attr_text [] = none
attr_text (c ∷ cs) = some (some (without_newline (c ∷ cs)))

-- `snsd_nvme_ctrl_read_attr`, on the bytes of the file, or none where it cannot be read: none is a fault,
-- and some none an error.
unfoldable pub snsd_nvme_ctrl_read_attr : ℕ → Option (List ℕ) → Option (Option (List ℕ))
snsd_nvme_ctrl_read_attr max_len none = some none
snsd_nvme_ctrl_read_attr max_len (some bytes) = attr_text (c_string (take (max_len - 1) bytes))

abbrev pub is_sep : ℕ → Bool
is_sep c = (c == b',') || (c == b'\n')

-- The pieces that `strsep` gives for a comma and a line feed, after the bytes of the first one so far.
unfoldable pub pieces_from : List ℕ → List ℕ → List (List ℕ)
pieces_from piece [] = piece ∷ []
pieces_from piece (c ∷ cs) =
    let next = pieces_from [] cs in
    let same = pieces_from (piece ++ c ∷ []) cs in if is_sep c then piece ∷ next else same

-- What is behind a prefix.
unfoldable pub behind : List ℕ → List ℕ → Option (List ℕ)
behind [] s = some s
behind (p ∷ ps) [] = none
behind (p ∷ ps) (c ∷ cs) = let rest = behind ps cs in if p == c then rest else none

-- The three arrays that are filled.
pub record Address : Type 0 where
  pub traddr : List ℕ
  pub host_traddr : List ℕ
  pub trsvcid : List ℕ

-- `strcpy` into an array of `n` bytes; none is a write behind its end.
abbrev pub strcpy : ℕ → List ℕ → Option (List ℕ)
strcpy n s = if ltb (length s) n then some s else none

abbrev pub by_key : Option (List ℕ) → Option (List ℕ) → Option (List ℕ) → Address → Option Address
by_key (some p) trsvcid host_traddr a = strcpy 64 p >>= λ v. some (record a { traddr = v })
by_key none (some p) host_traddr a = strcpy 8 p >>= λ v. some (record a { trsvcid = v })
by_key none none (some p) a = strcpy 64 p >>= λ v. some (record a { host_traddr = v })
by_key none none none a = some a

abbrev pub at_piece : List ℕ → Address → Option Address
at_piece p a =
    by_key (behind (codes "traddr=") p) (behind (codes "trsvcid=") p)
      (behind (codes "host_traddr=") p) a

unfoldable pub at_pieces : List (List ℕ) → Address → Option Address
unfolding behind
at_pieces [] a = some a
at_pieces ([] ∷ ps) a = at_pieces ps a
at_pieces ((c ∷ cs) ∷ ps) a = at_piece (c ∷ cs) a >>= at_pieces ps

-- `snsd_nvme_ctrl_parse_address`.
unfoldable pub snsd_nvme_ctrl_parse_address : List ℕ → Option Address
unfolding at_pieces pieces_from
snsd_nvme_ctrl_parse_address address =
    at_pieces (pieces_from [] address) (record { traddr = []; host_traddr = []; trsvcid = [] })

-- After an attribute that has been read.
abbrev pub with_attr :
    Option (Option (List ℕ)) → (List ℕ → Option (Option NvmeCtx)) → Option (Option NvmeCtx)
with_attr none next = none
with_attr (some none) next = some none
with_attr (some (some s)) next = next s

abbrev pub profile_of : List ℕ → List ℕ → Address → NvmeCtx
profile_of subsysnqn transport a = record {
  transport = transport;
  trsvcid = a.trsvcid;
  traddr = a.traddr;
  host_traddr = a.host_traddr;
  subsysnqn = subsysnqn;
  protocol = 0;
  mode = sw;
  dname = [];
}

-- `snsd_nvme_ctrl_profile`, on the files of a controller's directory.
unfoldable pub snsd_nvme_ctrl_profile : (List ℕ → Option (List ℕ)) → Option (Option NvmeCtx)
unfolding snsd_nvme_ctrl_read_attr snsd_nvme_ctrl_parse_address
snsd_nvme_ctrl_profile attrs =
    with_attr (snsd_nvme_ctrl_read_attr 256 (attrs (codes "subsysnqn"))) λ subsysnqn.
      with_attr (snsd_nvme_ctrl_read_attr 8 (attrs (codes "transport"))) λ transport.
        with_attr (snsd_nvme_ctrl_read_attr 1024 (attrs (codes "address"))) λ address.
          snsd_nvme_ctrl_parse_address address >>= λ a.
          some (some (profile_of subsysnqn transport a))
