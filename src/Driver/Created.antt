-- ===== src/Driver/Created.antt =====
-- The controller that the kernel announces, and the one that is removed after a discovery,
-- src/snsd_conn_nvme.c.
use nvme_snsd.Base.{
  ℕ, ◌≤◌, ◌<◌, ◌≡◌, ◌≢◌, refl, ap, ◌∙◌, ◌==◌, if_cases, List, [], ◌∷◌, ◌++◌, length, length-append,
  All, All-append, All-map_pred, some, inr, pos, Status, success, c_string, arith,
}
use nvme_snsd.Config.Options.{codes}
use nvme_snsd.Driver.{LogEntry, strstr}
use nvme_snsd.Driver.Address.{pieces_from}
use nvme_snsd.Driver.Options.{decimal}
use nvme_snsd.Driver.Profile.{IsPlain, take-length, pieces_from-append}
use nvme_snsd.Driver.Create.{
  instance_made, as_int, parse_pieces, snsd_nvme_ctrl_parse_instance, Fabrics, after_read,
  snsd_nvme_ctrl_create, device_name, or_efault, log_of_made, snsd_nvme_disc_get_log,
}
use nvme_snsd.Driver.Fits.{length-decimal_onto}
use nvme_snsd.Driver.Numbers.{IsDigit, decimal_onto-IsDigit, strtol-decimal}

abbrev pub cntlid_text : ℕ → List ℕ
cntlid_text n = (codes "cntlid=" ++ decimal n) ++ b'\n' ∷ []

-- What the kernel writes of a controller: "instance=%d,cntlid=%d", and a line feed.
abbrev pub reply : ℕ → ℕ → List ℕ
reply instance cntlid = (codes "instance=" ++ decimal instance) ++ b',' ∷ cntlid_text cntlid

IsDigit-IsPlain : (c : ℕ) → IsDigit c → IsPlain c
IsDigit-IsPlain c h = (ground arith, ground arith)

decimal-IsPlain : (n : ℕ) → All IsPlain (decimal n)
decimal-IsPlain n =
    All-map_pred IsDigit IsPlain IsDigit-IsPlain (decimal n) (decimal_onto-IsDigit 10 n [] tt)

key-IsPlain : All IsPlain (codes "instance=")
key-IsPlain = ground arith

instance-IsPlain : (n : ℕ) → All IsPlain (codes "instance=" ++ decimal n)
instance-IsPlain n =
    All-append IsPlain (codes "instance=") (decimal n) key-IsPlain (decimal-IsPlain n)

reply-pieces :
    (n m : ℕ)
    → pieces_from [] (reply n m) ≡ (codes "instance=" ++ decimal n) ∷ pieces_from [] (cntlid_text m)
reply-pieces n m =
    pieces_from-append [] (codes "instance=" ++ decimal n) b',' (cntlid_text m) (instance-IsPlain n)
      refl

parse-reply :
    (n m : ℕ) → n < 2147483648 → snsd_nvme_ctrl_parse_instance (reply n m) ≡ instance_made n
unfolding snsd_nvme_ctrl_parse_instance parse_pieces strstr
parse-reply n m h = rw (reply-pieces n m) (ap as_int (strtol-decimal n h) ∙ ground arith)

-- The text of the reply has no zero, and room in the buffer.
IsPlain-ne : (s : List ℕ) → All IsPlain s → All (λ c. c ≢ 0) s
IsPlain-ne s h = All-map_pred IsPlain (λ c. c ≢ 0) (λ c p. p.0) s h

length-reply : (n m : ℕ) → length (reply n m) ≤ 1023
length-reply n m = omega (
  arith,
  length-append (codes "instance=" ++ decimal n) (b',' ∷ cntlid_text m),
  length-append (codes "instance=") (decimal n),
  length-append (codes "cntlid=" ++ decimal m) (b'\n' ∷ []),
  length-append (codes "cntlid=") (decimal m),
  length-decimal_onto 10 n [],
  length-decimal_onto 10 m [],
)

cntlid-IsPlain : (m : ℕ) → All IsPlain (codes "cntlid=" ++ decimal m)
cntlid-IsPlain m =
    let key : All IsPlain (codes "cntlid=") = ground arith in
    All-append IsPlain (codes "cntlid=") (decimal m) key (decimal-IsPlain m)

reply-ne : (n m : ℕ) → All (λ c. c ≢ 0) (reply n m)
reply-ne n m =
    All-append (λ c. c ≢ 0) (codes "instance=" ++ decimal n) (b',' ∷ cntlid_text m)
      (IsPlain-ne (codes "instance=" ++ decimal n) (instance-IsPlain n))
      (
        (λ q. omega arith),
        All-append (λ c. c ≢ 0) (codes "cntlid=" ++ decimal m) (b'\n' ∷ [])
            (IsPlain-ne (codes "cntlid=" ++ decimal m) (cntlid-IsPlain m)) ((λ q. omega arith), tt),
      )

c_string-ne : (s : List ℕ) → All (λ c. c ≢ 0) s → c_string s ≡ s
c_string-ne [] h = refl
c_string-ne (c ∷ s) (hc, hs) = ground (arith, c_string-ne s hs)

after_reply : (n m : ℕ) → n < 2147483648 → after_read (inr (reply n m)) ≡ instance_made n
after_reply n m h =
    ap (λ s. snsd_nvme_ctrl_parse_instance (c_string s))
      (take-length 1023 (reply n m) (length-reply n m))
    ∙ ap snsd_nvme_ctrl_parse_instance (c_string-ne (reply n m) (reply-ne n m))
    ∙ parse-reply n m h

create_announced :
    (k : Fabrics) (arg_buf : List ℕ) (n m : ℕ)
    → k.opened ≡ success
    → (k.write arg_buf).0 ≡ pos (length arg_buf)
    → k.read arg_buf ≡ inr (reply n m)
    → n < 2147483648
    → snsd_nvme_ctrl_create k arg_buf ≡ instance_made n
unfolding snsd_nvme_ctrl_create
create_announced k arg_buf n m can_open whole answer h =
    rw (can_open, whole, answer)
      (if_cases (λ r. r ≡ instance_made n) (length arg_buf == length arg_buf)
        (λ e. after_reply n m h) λ e. absurd (ground arith))

-- Where the kernel takes the options and writes of a new controller which instance it is, the discovery
-- reads the log of that controller, and it is that controller which is then removed, whatever the reading
-- of the log comes to.
pub disc_get_log-announced :
    (k : Fabrics) (log : List ℕ → Status × List LogEntry) (arg_buf : List ℕ) (n m : ℕ)
    → k.opened ≡ success
    → (k.write arg_buf).0 ≡ pos (length arg_buf)
    → k.read arg_buf ≡ inr (reply n m)
    → n < 2147483648
    → snsd_nvme_disc_get_log k log arg_buf
      ≡ (or_efault (log (codes "/dev/" ++ device_name n)), some (device_name n))
unfolding snsd_nvme_disc_get_log
disc_get_log-announced k log arg_buf n m can_open whole answer h =
    ap (log_of_made log) (create_announced k arg_buf n m can_open whole answer h)
