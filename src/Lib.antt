-- ===== src/Lib.antt =====
-- The daemon of this repository connects a host to its NVMe over Fabrics targets. It hears of
-- changes of the storage network from switches by notification messages on raw Ethernet, watches
-- its own ports, and connects and disconnects targets through worker threads.
--
-- The parts, how they interact, and the files that model them:
--
-- - src/snsd_conn_peon.c, in Peon: requests become tasks with serial numbers, and each of four
--   peons (connect, disconnect, batch disconnect, recheck) has a waiting list, a running list
--   and worker threads. Peon/Task is the state, Peon/Scan the judgement of conflicts
--   (peon_task_action_judge), Peon/Work the operations (peon_task_add, peon_task_get,
--   peon_task_complete, peon_run_recheck, peon_dynamic_disconn_thread run alone). Peon/World has
--   the peons with the dynamic disconnect workers beside them, each with a peon of its own and
--   the phase of its thread, and Peon/Reach the step relation: a request, one call of
--   peon_task_get or peon_task_complete by a worker or by a dynamic one, the recheck pass, and the
--   end of a dynamic worker, in any order. A number that is taken before its task is added is a
--   step of its own. Peon/Conflict, Get, Handed, Complete, Numbers, Serial, Rechecked, Steps and
--   Latest are proofs.
-- - src/snsd_server.c and src/snsd_server.h, in Server: Server/Message has a message and the
--   handlers of its fields, Decode the header, the root TLVs and their sub-TLVs, Ack the
--   acknowledgement, Pool the lists of message nodes and the dispatcher, Listener the table of
--   sockets, Attack the monitor of floods, Receive the whole receive path (snsd_client_notify),
--   Query the query of the zone, Sock the sockets that src/snsd_mgt.c opens for it, with a proof.
--   Server/Notify, Complete, Bounds, Safe, Queue and Sockets are proofs. The dispatcher calls the
--   connect interface.
-- - src/snsd_connect.c, in Connect: the table of protocols, through which tasks go to the peons.
--   A driver's functions and a worker's answers are arguments.
-- - src/snsd_direct.c, in Direct: the ports without a switch, each a small state machine.
-- - src/snsd_switch.c and src/snsd_switch.h, in Switch: FdInfo and FdData are the table of the
--   sockets of the physical ports, Slaves gives sockets to the slaves of a bonded port and takes
--   them back, Poll has the timing of LLDP frames and the disconnection of a port that goes
--   down, Port the handling of one port, and Pass that of all of them (switch_port_handle);
--   Unique, Index, Settled, Handle and Kept are proofs.
-- - src/snsd_mgt.c, in Discovery: Poll brings the list of ports up to date with the kernel's
--   interfaces (snsd_get_net_info), Vlan reads the kernel's table of VLANs, Slaves makes the list
--   of a bonded port's slaves, which Switch/Slaves then works through, Ports picks the ports that
--   the configuration names (snsd_cfg_net_info), and Device seeks a port's device. Files reads the
--   kernel's files and its list of interfaces (snsd_all_net_info), and Read has the proofs. Filled,
--   Unique and Kept are proofs about a poll, Row about a row of the table; Live, Current and Configured
--   are proofs about slaves and configured ports.
-- - src/snsd_reg.c and src/snsd_reg.h, in Frame: Tlv builds an LLDP frame (lldp_send), Bonding
--   sends frames on the slaves that are up. Reader and Smart read a frame as IEEE 802.1AB and
--   the organisation's own TLV lay it out, without looking at how it is built; RoundTrip has the
--   proofs.
-- - src/snsd_conn_nvme.c, in Driver: finding a target's controller in the kernel's directory, its
--   record in the discovery log, and connecting to it. Address reads a controller's files, Options
--   writes the options of a connection, and Context has the contexts of tasks and the
--   disconnections. Create makes a controller by the kernel's device, and the one that is made for a
--   discovery. Connected, Profile, Fits, Disconnect, Numbers, Created and Padded have the proofs.
-- - src/snsd_nvme.c, in Nvme: the loop that reads a target's discovery log (nvme_discovery_log).
-- - src/snsd_cfg.c and src/snsd_cfg.h, in Config: the file /etc/nvme/snsd.conf as a list of
--   bytes. File finds and loads a section, Blank removes blanks (snsd_del_blank), Words reads
--   words and skips comments and lines, Options has the two tables of options and the checks of
--   values, Items fills the values of a line and adds a network to its list, Parse goes over the
--   lines of a section, Conflict has the check of the networks, the lookups and snsd_cfg_init.
--   Sections, Total, Clean and Distinct are proofs; Text has the tests of bytes.
-- - src/snsd_log.c and src/snsd_log.h, in Log: the line that is written, and how messages are held
--   back.
-- - src/snsd_list.h, in Links: the doubly linked lists, as pointers in memory. Links/Rings has each
--   operation, Links/Runs sequences of them.
-- - src/snsd_main.c, in Main: the parts in the order in which they are started and stopped, and the
--   loop over the ports (port_handle), which calls Switch and Direct in turn. The loop has no end,
--   since snsd_help_run of src/snsd_server.c always returns false; a round of it is an argument,
--   with all that it meets, and the theorems are about any number of rounds. Main/Started and
--   Main/Rounds are proofs.
-- - src/snsd.h and the structures that several parts share are in Net. Base has the helpers:
--   lists and tests on native numbers, machine words, return codes, bytes in memory. Tests has
--   runs on concrete data.
--
-- Bytes are natural numbers, and a buffer is the list of its bytes. A read or a write outside a
-- buffer is the value none, as is a loop that runs out of fuel. The decoder's loops have the
-- length of what they decode, and one more, as fuel, which is enough since each round takes at
-- least 3 bytes. The loop of peon_task_get has the number of waiting tasks, since each turn drops
-- a task or passes over one. The search in the table of VLANs has its length, since each round
-- passes over a name. A decimal number has 10 rounds, enough for 32 bits. The loop that counts a
-- file's bytes has their number, and one more; the loop that makes room for the interfaces takes
-- its rounds as an argument, with a theorem on how many are enough. The loops over the
-- configuration file have its length, and one more, since each round takes a byte at least.
-- Machine integers wrap where the code lets them; the serial numbers of tasks, of 64 bits, are
-- supposed not to wrap in Peon/Reach.
--
-- Not modelled: threads, locks, wait queues, sockets and files (what they return is an argument),
-- the opening of the system's log, the kernel's files and devices that the NVMe driver uses
-- (src/snsd_conn_nvme.c), the commands of src/snsd_nvme.c, the host's own name file, of which
-- snsd_cfg_init takes the name as an argument, running out of memory in src/snsd_cfg.c, and the
-- texts of the commands of src/snsd_main.c.
pub mod Base
pub mod Net
pub mod Peon
pub mod Server
pub mod Connect
pub mod Direct
pub mod Switch
pub mod Config
pub mod Discovery
pub mod Frame
pub mod Nvme
pub mod Driver
pub mod Log
pub mod Links
pub mod Main
pub mod Tests
