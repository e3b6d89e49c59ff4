-- ===== src/Switch/Settled.antt =====
-- What `switch_get_bonding_fd` and `switch_free_bonding_fd` leave of the slaves and of the table.
use nvme_snsd.Base.{
  ℕ, suc, ◌+◌, ◌≡◌, refl, ap, ◌∙◌, Bool, true, false, not, ◌&&◌, ◌||◌, if◌then◌else◌, List, [], ◌∷◌,
  ◌++◌, Option, none, some, get_elem?, length, ℤ, pos, decr, Status, Errno, eagain, success,
  failure, arith, All,
}
use nvme_snsd.Config.Text.{str_eq}
use nvme_snsd.Discovery.Slaves.{SlaveInfo, BondingInfo, new_slave}
use nvme_snsd.Discovery.Live.{live, Named, Current}
use nvme_snsd.Switch.FdInfo.{PortFd, switch_put_fd_info}
use nvme_snsd.Switch.Unique.{Unique}
use nvme_snsd.Switch.FdData.{release-Unique, get_fd_data-Unique}
use nvme_snsd.Switch.Slaves.{
  Fds, after_fd, switch_free_slave_fd, switch_free_bonding_fd, Got, keep, with_fd, got_fd,
  get_slave_fd, at_slave, get_slave_fds, switch_get_bonding_fd,
}

-- A slave that stays and has a socket.
abbrev pub Ready : SlaveInfo → Type 0
Ready s = (s.deleted ≡ false) × (s.fd_valid ≡ true)

-- What the loop leaves of the slaves `ss`, where `k` more were kept before them.
abbrev GotOk : ℕ → List SlaveInfo → Got → Type 0
GotOk k ss r =
    ((q : List ℕ) → live q r.slave ≡ live q ss)
    × (r.slaves_count ≡ pos (length r.slave + k))
    × Unique r.fds.table
    × (r.finished ≡ true → All Ready r.slave)

pub free_slave-Unique :
    (now : ℕ) (s : SlaveInfo) (fds : Fds)
    → Unique fds.table
    → Unique (switch_free_slave_fd now s fds).table
unfolding switch_free_slave_fd
free_slave-Unique now s fds u =
    release-Unique s.fd_index 0 now fds.table (get_elem? fds.table s.fd_index) refl u

dead_first :
    (q : List ℕ) (s : SlaveInfo) (ss : List SlaveInfo)
    → s.deleted ≡ true
    → live q ss ≡ live q (s ∷ ss)
dead_first q s ss h = ground arith

keep-GotOk :
    (k : ℕ) (s s' : SlaveInfo) (ss : List SlaveInfo) (r : Got)
    → s'.slave_name ≡ s.slave_name
    → s'.deleted ≡ s.deleted
    → Ready s'
    → GotOk (suc k) ss r
    → GotOk k (s ∷ ss) (keep s' r)
keep-GotOk k s s' ss r name del ready (alive, count, u, done) = (
  (λ q.
      ap (λ n. (str_eq q n && not s'.deleted) || live q r.slave) name
      ∙ (ap (λ d. (str_eq q s.slave_name && not d) || live q r.slave) del
          ∙ ap (λ b. (str_eq q s.slave_name && not s.deleted) || b) (alive q))),
  count ∙ ap pos (omega arith),
  u,
  λ e. (ready, done e),
)

drop-GotOk :
    (k : ℕ) (s : SlaveInfo) (ss : List SlaveInfo) (r : Got)
    → s.deleted ≡ true
    → GotOk k ss r
    → GotOk k (s ∷ ss) r
drop-GotOk k s ss r del (alive, c, u, done) = ((λ q. alive q ∙ dead_first q s ss del), c, u, done)

-- One slave less.
one_less : (n k : ℕ) → decr (pos (suc n + k)) ≡ pos (n + k)
one_less n k = let e : suc n + k ≡ suc (n + k) = omega arith in ap (λ m. decr (pos m)) e

Named-same :
    (text : Option (List ℕ)) (ss rs : List SlaveInfo)
    → ((q : List ℕ) → live q rs ≡ live q ss)
    → Named text ss
    → Named text rs
Named-same none ss rs same h = tt
Named-same (some text) ss rs same h = λ q. same q ∙ h q

succeeded : (b : Bool) (e : Errno) → (if b then success else failure e) ≡ success → b ≡ true
succeeded true e h = refl
succeeded false e h = cc

-- What `switch_get_bonding_fd` leaves.
abbrev pub Settled : BondingInfo × (Fds × Status) → Type 0
Settled (info, (fds, result)) =
    Current info
    × Unique fds.table
    × (result ≡ success → All Ready info.slave × (info.bonding_change ≡ false))

module _ (sock : ℕ → Option ℕ) (added : ℕ → Status) (now : ℕ) where
  -- What a loop over the slaves `ss` promises.
  abbrev Loop : List SlaveInfo → (ℤ → Fds → Got) → Type 0
  Loop ss next =
      (k : ℕ) (count : ℤ) (fds : Fds)
      → count ≡ pos (length ss + k)
      → Unique fds.table
      → GotOk k ss (next count fds)

  got_fd-GotOk :
      (k : ℕ) (s : SlaveInfo) (ss : List SlaveInfo) (next : ℤ → Fds → Got) (count : ℤ) (fds : Fds)
      (table : List PortFd) (o : Option (ℕ × ℕ))
      → s.deleted ≡ false
      → count ≡ pos (length (s ∷ ss) + k)
      → Unique fds.table
      → Loop ss next
      → GotOk k (s ∷ ss) (got_fd s ss next count fds table o)
  got_fd-GotOk k s ss next count fds table none del c u ok = ((λ q. refl), c, u, λ e. absurd cc)
  got_fd-GotOk k s ss next count fds table (some (i, index)) del c u ok =
      keep-GotOk k s (with_fd s i table) ss (next count fds) refl refl (del, refl)
        (ok (suc k) count fds (c ∙ ap pos (omega arith)) u)

  at_slave-GotOk :
      (d v : Bool) (s : SlaveInfo) (ss : List SlaveInfo) (next : ℤ → Fds → Got)
      → s.deleted ≡ d
      → s.fd_valid ≡ v
      → Loop ss next
      → Loop (s ∷ ss) (at_slave sock added now d v s ss next)
  at_slave-GotOk true true s ss next del valid ok k count fds c u =
      drop-GotOk k s ss (next (decr count) (switch_free_slave_fd now s fds)) del (
        ok k (decr count) (switch_free_slave_fd now s fds) (ap decr c ∙ one_less (length ss) k)
          (free_slave-Unique now s fds u))
  at_slave-GotOk true false s ss next del valid ok k count fds c u =
      drop-GotOk k s ss (next (decr count) fds) del
        (ok k (decr count) fds (ap decr c ∙ one_less (length ss) k) u)
  at_slave-GotOk false true s ss next del valid ok k count fds c u =
      keep-GotOk k s s ss (next count fds) refl refl (del, valid)
        (ok (suc k) count fds (c ∙ ap pos (omega arith)) u)
  at_slave-GotOk false false s ss next del valid ok k count fds c u =
      let got = get_slave_fd sock added now s.slave_ifindex fds in
      got_fd-GotOk k s ss next count (after_fd got fds) got.table got.got del c
        (get_fd_data-Unique (sock s.slave_ifindex) (added s.slave_ifindex) s.slave_ifindex false now
          fds.table u)
        ok

  get_slave_fds-GotOk : (ss : List SlaveInfo) → Loop ss (get_slave_fds sock added now ss)
  unfolding get_slave_fds
  get_slave_fds-GotOk [] k count fds c u = ((λ q. refl), c, u, λ _. tt)
  get_slave_fds-GotOk (s ∷ ss) k count fds c u =
      at_slave-GotOk s.deleted s.fd_valid s ss (get_slave_fds sock added now ss) refl refl
        (get_slave_fds-GotOk ss) k count fds c u

  -- For a port whose slaves are those that the kept text names, whatever fails on the way: the
  -- slaves that are not to be deleted stay the ones that the text names, the slaves are counted, and no
  -- port gets two entries of the table. Where it succeeds, every slave that is left has a socket, none is
  -- to be deleted, and the change is done with.
  pub get_bonding_fd-Settled :
      (info : BondingInfo) (fds : Fds)
      → Current info
      → Unique fds.table
      → Settled (switch_get_bonding_fd sock added now info fds)
  unfolding switch_get_bonding_fd get_slave_fds
  get_bonding_fd-Settled info fds ok u =
      let r = get_slave_fds sock added now info.slave info.slaves_count fds in
      let g =
        get_slave_fds-GotOk info.slave 0 info.slaves_count fds (ok.counted ∙ ap pos (omega arith))
          u in
      let (alive, count, unique, done) = g in
      (
        record {
          named = Named-same info.bonding_slaves info.slave r.slave alive ok.named;
          bonded = λ e.
              ap (λ ss. (get_slave_fds sock added now ss info.slaves_count fds).slave)
                (ok.bonded e);
          counted = count ∙ ap pos (omega arith);
        },
        unique,
        λ e.
            let all = succeeded r.finished eagain e in
            (done all, ap (λ b. if b then false else info.bonding_change) all),
      )

-- A bonded port whose only slave has not got a socket yet, with the socket of another port in the first
-- entry: deleting the port's slaves takes a reference from that entry and, if it was the last one,
-- closes the other port's socket.
free_bonding_fd_first :
    (now ifindex : ℕ) (name : List ℕ) (e : PortFd) (es : List PortFd) (fd : ℕ) (closed : List ℕ)
    → e.refs ≡ pos 1
    → e.fd ≡ some fd
    → switch_free_bonding_fd now
        (new_slave name ifindex ∷ [])
        (record { table = e ∷ es; closed = closed })
      ≡ record {
        table = record e { refs = pos 0; fd = none; old_time = now + 130 } ∷ es;
        closed = closed ++ fd ∷ [];
      }
unfolding switch_free_bonding_fd switch_free_slave_fd switch_put_fd_info
free_bonding_fd_first now ifindex name e es fd closed refs opened = λ i.
    switch_free_bonding_fd now (new_slave name ifindex ∷ [])
      (record { table = record e { refs = refs i; fd = opened i } ∷ es; closed = closed })
