-- ===== src/Lib.antt =====
-- irqbalance: a daemon that spreads the hardware interrupts of a machine over its CPUs.
--
-- Every few seconds the daemon reads how many interrupts there were and how busy each CPU was, shares
-- the load out among the interrupts, takes interrupts off the objects that are busier than others,
-- places what has no place in the tree of nodes, packages, cache domains and CPUs, and writes the
-- resulting masks to the kernel. The state of the program is one record, State, that every operation
-- takes and returns: the globals of the files, and the memory as functions from handles.
--
-- Types: types.h and irqbalance.h. A pointer is a handle, a number, and NULL is `none`. Types.Cpumask
--   is cpumask.h as its clients see it: any type of masks with the operations and their laws, since
--   bitmap.c, bitmap.h, cpumask.h and non-atomic.h are the Linux kernel's. Types.Glist is the sorting
--   of GLib, Types.Floating the long double of the deviation; both are arguments. Types.Invariant says
--   what the lists of interrupts promise: IsPlaced, an interrupt is on one list at most, and on the
--   one that its assigned_obj names.
-- Classify: classify.c. Lookup, Migrate and Sort are the lists; Pci and Policy classify an interrupt;
--   Bans, Database and Removal are the database; Known, Rebuilt and Removed what it promises.
-- Irqlist: irqlist.c. Migrate is migrate_irq_obj; Kept is the relation of two states between which no
--   interrupt is lost; Balance is the statistics of a level and the choice of what is to move;
--   Retarget is a migration after assigned_obj was written.
-- Placement: placement.c. Best is find_best_object, Place the walk down the tree; Hosts, Choice,
--   Keeps and Outcome are what they promise.
-- Activate: activate.c. Kernel holds the answers of /proc/irq; Search, Fallback and Mapping are the
--   code; Keeps, Written and Scope what it promises, Domain the scope of a fallback in the tree.
-- Procinterrupts: procinterrupts.c. Load shares the loads, Slice is what that promises and Branch the
--   sum over the tree that it uses; Lines reads /proc/interrupts.
-- Numa: the search for a node in numa.c; Build is the list of the nodes and connect_cpu_mem_topo.
-- Cputree: cputree.c. Add puts one CPU into the tree, Parse walks over the CPUs and settles which are
--   banned, Clear resets and frees what the tree holds. Tree, Linked and Grown are what Add promises; Unlisted,
--   Built and Freed follow the lists of interrupts while a tree is built and freed.
-- Irqbalance: irqbalance.c. Rebalance is force_rebalance_irq, Scan the balancing part of `scan`, Rescan
--   the part that frees and builds the tree, Daemon the whole of it with the timers. Stats prints the
--   tree for a client; Commands is sock_handle, the settings that a client can change, with Guard and
--   BanList on what a client can do; Options is the command line.
-- Thermal: thermal.c. Bans and Events read the reports of hot CPUs, Sweep is what that promises,
--   Receive gives up after some failures, Netlink and Setup open the socket. The banned CPUs reach
--   Cputree.Parse as an argument.
-- Ui: ui/irqbalance-ui.c and ui/ui.c. Model is the data, Parse reads the text of Irqbalance.Stats into
--   a tree, Setup the answer to "setup"; Reads, Grow, RoundTrip and SetupTrip follow what one program
--   prints and the other reads, BannedCpus the digits of the mask. Connection asks the daemon, Lists
--   are the walks over the tree. Window, Cpus, Irqs and Sleep are the screens and the editing of the
--   bans and of the interval, with what is sent in their children Sent; Ranges is the text of the CPUs
--   of an interrupt; Keys is key_loop. Start is main's search for the daemon, rescan_tree, and
--   the line of the banned CPUs. Irqbalance.Commands.Received is the other end of a message.
--
-- Unsigned 64-bit numbers wrap (Types.Word); an int is exact, since its overflow has no meaning in C.
-- The tree of objects has four levels (node, package, cache domain, CPU), so the walks up and down it
-- are given four steps. The fallback makes at most eight attempts, as in the code. What the kernel,
-- sysfs and the user's scripts answer is an argument of the operations. An allocation does not fail,
-- but for the loop of Rescan, whose builder is any function that may ask for another build, and the
-- setup of the netlink socket. strtol saturates, and what does not fit an int is cut to 32 bits. The
-- printing of a number tries twenty digits, which are enough for 64 bits; the reading of a text has
-- the number of its words as fuel, which is enough since every round takes one. In the user interface
-- an index stands for a pointer, keys are a list, and a walk over the tree has as much fuel as the tree
-- has nodes: a child comes after its parent. A window is taken to be at least eight lines high.
--
-- Not modelled: logging and dumps; the regular expressions that procinterrupts.c uses on some
-- machines; main and the calls that open the socket in irqbalance.c, which are input and output; in
-- ui/ the drawing but for the lines of the lists, the shell command that names the interrupts, and
-- the terminal. The bit masks are an interface.
-- State.fault is set where the code would follow NULL.
pub mod Prelude
pub mod Types
pub mod Classify
pub mod Irqlist
pub mod Placement
pub mod Irqbalance
pub mod Activate
pub mod Numa
pub mod Procinterrupts
pub mod Cputree
pub mod Thermal
pub mod Ui
mod Samples
