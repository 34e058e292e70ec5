-- ===== src/Lib.antt =====
-- A model of the dysk kernel module (module/), which mounts Azure page blobs as Linux block
-- devices, with proofs about it.
--
-- The program. A character device takes mount, unmount, get and list commands (dysk_bdd.c). A
-- mounted dysk gets a slot, minor numbers and a request queue. Its block requests become tasks of
-- one worker thread (dysk_worker.c), which sends and receives them as HTTP messages over a pool of
-- connections (az.c). dysk_utils.c has the helpers on text, base64 and hashes.
--
-- The files.
-- - Base: shared names; Boolean tests, lists, C ints, texts as bytes.
-- - Slots: module/dysk_bdd.c, struct dyskslist, find_set_dysk_slots, free_dysk_slot. Slots.Find has
--   the search, Slots.Counts the counter, Slots.Ledger the histories of mounts and unmounts,
--   Slots.Limits the end of the array. The kernel searches 1024 bits, of which the array has 512; the
--   others are memory behind it (the head of the list of dysks), whose bits are arbitrary.
-- - Text: module/dysk_utils.c, get_until, over the string functions that it calls. Text.Find has its
--   laws.
-- - Base64: module/dysk_utils.c, base64_encode and base64_decode. Base64.Table checks digits and bit
--   operations value by value, Base64.RoundTrip and Base64.Size are about the whole functions.
-- - Def: module/dysk_bdd.c, dysk_def_to_buffer and dysk_def_from_buffer, with struct dysk_def of
--   module/dysk_bdd.h. Def.Parse, Def.Print and Def.Safety prove the two against
--   module/ioctl_cmds.md, against each other, and on arbitrary bytes.
-- - Worker: module/dysk_worker.c, queue_w_task, execute and work_thread_fn. A task's
--   functions are a value of the record Handlers. Worker.Queue and Worker.Invariant are about the
--   list, Worker.Retry about the loop in execute, Worker.Pass about a round, Worker.Order about the
--   order of its visits, Worker.Thread about the rounds of the thread.
-- - Mount: module/dysk_bdd.c, dysk_mount and dysk_add with the memory, the transfer state and the place
--   in the block layer that they take, and the actual delete. Mount.Balance is about a mount that
--   succeeds, Mount.Failures about one that does not.
-- - Delete: module/dysk_bdd.c, __del_dysk_async as a task of that worker. Delete.Mounted is about a dysk
--   from its mount to its delete.
-- - Hash: module/dysk_utils.c, calc_hash and calc_hmac over the hash functions of the kernel.
-- - Pool: module/az.c, connection_create, connection_pool_get, connection_pool_put and
--   connection_pool_teardown. Pool.Leases is the ordinary life of the pool, Pool.Failures what a
--   refused connect does to it.
-- - Http: module/az.c, process_response and http_response_completed. Http.Scan, Http.Lines and
--   Http.Loops are about words and numbers, single lines and the two loops, Http.Reply says what a
--   response looks like, Http.Status is about reading its first line, Http.Head its head, Http.Whole all
--   of it, Http.Pieces one that comes in two pieces, Http.Misread one whose body looks like a header,
--   Http.Chunked one without a length, Http.Fuel about the rounds of the loops.
-- - Header: module/az.c, make_header, and module/dysk_utils.c, utc_RFC1123_date. Header.Range is about
--   the byte range, Header.Date about the date.
-- - Transfer: module/az.c, the states of the two tasks and their clean-ups. Transfer.Send is
--   __send_az_req, Transfer.Receive is __receive_az_response, Transfer.World is az_do_request and the
--   turns that the worker gives to the tasks. Transfer.CleanUp is about the clean-ups by reason,
--   Transfer.SendParts and Transfer.ReceiveParts about what each part of the tasks keeps,
--   Transfer.Accounting about what becomes of the requests, Transfer.Working about
--   tasks of which nothing fails, Transfer.Delivery about a read that succeeds, Transfer.Writes about a
--   write, Transfer.Failures about a header that cannot be made, Transfer.TooLong about
--   a response that does not fit its buffer.
-- - Address: module/dysk_utils.c, inet_addr. Address.Dotted is about addresses of four parts.
-- - Requests: module/dysk_bdd.c, io_request over az_do_request. Requests.Served is about a whole queue,
--   Requests.Once about its requests up to their end.
-- - Hook: module/dysk_bdd.c, io_hook, io_unhook and dysk_getgeo. Hook.Slot is about the slot of a dysk,
--   Hook.Geometry about the geometry.
-- - Xfer: module/az.c, connection_pool_init, az_init_for_dysk and az_teardown_for_dysk. Xfer.Leaks is
--   about the memory that they take.
-- - LifeCycle: module/dysk_bdd.c, _init_module, unload, endpoint_start and endpoint_stop; az_init
--   and az_teardown of module/az.c; module/dysk_worker.c, dysk_worker_init and
--   dysk_worker_teardown. LifeCycle.Unload is about what is given back to the kernel.
-- - Registry: module/dysk_bdd.c, dysk_exist, dysk_add, dysk_del and dysk_catastrophe over the list of
--   mounted dysks. Registry.Same is about the comparison of names, Registry.Names about their
--   uniqueness, Registry.Catastrophe about dysk_catastrophe. Registry.Race has callers whose turns mix,
--   Registry.Race.Together is about two of them.
-- - Commands: module/dysk_bdd.c, dysk_mount, dysk_unmount, dysk_get, dysk_list and ep_ioctl over that
--   list. Commands.Answers is about what they answer, Commands.Listing about dysk_list,
--   Commands.Overflow about the size of an answer.
-- - Tests: instances of the theorems and runs of the definitions.
--
-- Conventions. Numbers are unbounded unless a wrap-around is written out; C ints that are compared
-- with negative codes are the integers of Base.Int. Pointers are addresses (numbers), a pointer
-- into a buffer is the list of the bytes from there on, and a NUL-terminated array is the list of
-- all its bytes. Linked lists, bit operations, the kfifo and the string functions of the kernel are
-- modelled as the documented operations that the module uses. What allocation, the network and the
-- clock answer is a parameter: a flag, a record of answers, or a field of the state. sprintf and
-- sscanf of numbers are the record Numerals, with the laws that decimal numerals have;
-- Tests.Decimal gives a value of it; sscanf of `%d` on responses and addresses is Http.scan_int. A
-- function that holds a spin lock throughout is one step. copy_from_user reads MAX_IN_OUT bytes, and
-- sock_recvmsg at most what is left of the response buffer; the byte behind that buffer is taken to be 0.
--
-- Fuel. Worker.walk takes fuel for the number of tasks that it visits; the theorem about it holds
-- at every fuel. The loop of execute recurs on its three rounds, that of dysk_catastrophe and that
-- of io_request on the outcomes of allocations, and the theorems about them show that they end once
-- there is memory. Http.length_loop and Http.body_loop take the number of bytes of the response as
-- fuel, which is enough because each round moves the mark on. The loops of the transfer tasks recur
-- on the answers of the network, and a call without an answer blocks. All other loops recur on
-- their data.
--
-- Not modelled: what the block layer, the character device and the device classes of the kernel do
-- with what they are given, the gendisk operations that return a constant, locks other than
-- dysks.lock, what the commands do while a round of the worker runs, the variants of the code for old
-- kernels, and the Go programs under dyskctl/ and pkg/.
pub mod Base
pub mod Slots
pub mod Base64
pub mod Text
pub mod Def
pub mod Worker
pub mod Pool
pub mod Delete
pub mod Http
pub mod Transfer
pub mod Address
pub mod Header
pub mod Requests
pub mod Hash
pub mod Hook
pub mod Xfer
pub mod Mount
pub mod Registry
pub mod Commands
pub mod LifeCycle
pub mod Tests
