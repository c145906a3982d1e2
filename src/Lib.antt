-- ===== src/Lib.antt =====
-- The Sledge serverless runtime: a server that runs WebAssembly modules as sandboxes. A listener thread
-- parses a request, decides whether to admit it, and puts a sandbox for it on a global request
-- scheduler; workers take sandboxes from there, run them in their linear memories, preempt and resume
-- them by a local runqueue, and answer the clients.
--
-- The parts, with the files of the repository that they model:
-- - PriorityQueue: runtime/include/priority_queue.h, the heap of the global request scheduler and of the
--   runqueues by deadline. One function for each priority_queue_* of the source, without the prefix;
--   `load` and `store` check an index as the C array has it. Children: Heap (what is valid), Up and Down
--   (the two loops), Settle and Remove (a cell is vacated), Enqueue, Dequeue, Delete, Lock and
--   Api (with the lock), Session (any calls), Tests.
-- - Scheduler: runtime/src/local_runqueue_minheap.c, runtime/src/global_request_scheduler_minheap.c and
--   scheduler_edf_get_next of runtime/include/scheduler.h, on top of PriorityQueue. Cells, Runqueue, Edf.
-- - Sandbox: runtime/include/sandbox_*.h, the states of a sandbox and its worker. Transitions has one
--   function for each sandbox_set_as_* and its wrappers, Moves the callers with their assertions; Time,
--   Graph, Lifecycle and Reach have what holds of them. The local runqueue is an interface, a record
--   of the functions that a policy registers, with laws in Lifecycle, which Fifo.Interface fills.
-- - WasmMemory: runtime/include/wasm_memory.h, memory.grow of runtime/src/sledge_abi.c, and the loads
--   and stores of a module in libsledge/src/memory_instructions.c. Fresh, Access, Bounds, Recycle.
-- - PerfWindow: runtime/include/perf_window.h, perf_window_t.h. Swap, Shift, Add.
-- - Admissions: runtime/src/admissions_control.c and admissions_info.c, on top of PerfWindow. Estimate,
--   Decide, Account (the listener and the workers interleaved).
-- - HttpRequest: runtime/src/http_parser_settings.c and runtime/include/http_request.h. Limits, Headers,
--   Message, Samples.
-- - Deque: runtime/include/deque.h, the global request scheduler of the FIFO policy. Interleaving (one
--   listener and any number of workers), Overrun.
-- - Map: runtime/include/map.h, the key-value store. View, Delete.
-- - Fifo: runtime/src/local_runqueue_list.c and local_cleanup_queue.c, the runqueue of the FIFO policy.
--   Links (the two lists of a worker, an interface with laws), Rotation, Interface (it is a runqueue for
--   the sandbox model), Samples (links that are lists).
-- - WorkerThread: the loop of a worker under the FIFO policy, on top of Sandbox, Fifo, Deque and Globals:
--   runtime/include/scheduler.h, runtime/src/current_sandbox.c, sandbox.c and software_interrupt.c.
--   Dispatch has the switches, Signals the handler and the calls of a sandbox. Frame, Serving, Preempt,
--   RoundRobin and Alarms lead from one switch to all rounds; Lost is about the cooperative switch, and
--   Failed about a failed preparation. Variables has libsledge/src/variable_instructions.c and the entry points
--   for globals of runtime/src/sledge_abi.c.
-- - Listener: runtime/include/http_session.h, tcp_session.h, http_router.h and
--   runtime/src/listener_thread.c, on top of Admissions and HttpRequest: a request is read, routed and
--   admitted, and a response sent, over a socket that may block. Transmit, Sending, Respond, Events,
--   Router, Requests, Receive (with the HTTP parser as a parameter).
-- - Globals: runtime/include/vec.h, wasm_globals.h, wasm_table.h and
--   libsledge/src/table_instructions.c. Vector, Cells, Table.
-- - Numeric: the rotations of libsledge/src/numeric_instructions.c. Bits, Rotations.
-- Base has what they share: C's tests on numbers, the ways in which a function ends, arrays,
--   lists.
--
-- Conventions. A function that can stop the process returns a Run: a value, or the fault that stops it
-- (a failed assertion, a panic, an access out of bounds, a NULL pointer, a lock that is held). A struct
-- is a record, and a function that writes one returns it. Numbers are unsigned, with the wrap-around of
-- their width written out where a sum or a product may reach it. A pointer is a number, 0 for NULL, or
-- an option. An array is a function of its index.
--
-- Loops. The loops of the heap are on fuel, size + 1, since the index halves or doubles within the size;
-- those of the perf window have fuel 256, one for each cell; the loop over query parameters has 17, since
-- each round adds one of at most 16. The theorems state that the functions return, so that the fuel is
-- enough. All other loops are by recursion on their list or counter.
--
-- Parameters. The priority of an element, the answers of malloc, mmap and mprotect, the clock, the
-- runqueue's policy, the capacity of the admissions control, the hash function of the map, the
-- HTTP parser (with how many bytes it parses, and that the bytes of a body follow some of a header; that
-- its callbacks return is not assumed), the links of ps_list.h (with their laws), the answers of a socket, the text of a response header, and what the C compiler leaves in the upper half
-- of a union.
--
-- Not modelled: WASI, configuration, loading of modules, metrics and logs, which are calls of the operating
-- system or output; the MTDS and MTDBF policies; the acceptance of connections; floats,
-- and division and remainder, whose errors the C language leaves undefined. The processor's registers are left out: a context is its variant. A worker's
-- loop is modelled for the FIFO policy only. An operation that holds a lock is one step; the threads'
-- steps are interleaved for the admissions control, for the deque (in a sequentially consistent memory)
-- and, as steps of other sandboxes, for the sandbox.

pub mod Base
pub mod PriorityQueue
pub mod Sandbox
pub mod WasmMemory
pub mod PerfWindow
pub mod Admissions
pub mod HttpRequest
pub mod Map
pub mod Deque
pub mod Scheduler
pub mod Globals
pub mod Fifo
pub mod WorkerThread
pub mod Numeric
pub mod Listener
