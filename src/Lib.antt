-- ===== src/Lib.antt =====
-- The bindings of libdense_sim, over the types of include/dense/dense_sim.h: the Python binding,
-- bindings/python/src/dense_sim/_dense_sim.c, and the C++ binding,
-- bindings/cpp/include/dense/dense_sim.hpp, of which bindings/cpp/include/dense_sim.hpp is a copy.
--
-- The Python binding is a CPython extension. A World object owns a native ds_world and a generation;
-- a FanoutView object borrows memory of that world, remembers the World and its generation, and is
-- refused once the World's generation has moved on. Views of groups, entries and subscribers lead
-- back to the fanout view at each use. The methods of a World convert arguments, test that the
-- World is open, call the library, and turn a ds_result into an exception; the two batch methods
-- read native arrays through the buffer protocol.
--
-- The C++ binding is a header. A World shares a detail::WorldState, with the native world and the
-- generation, with every view, group, range and iterator that comes from it; the last of them
-- destroys the state and its world. Each of them holds a generation and the address of an array, and
-- its operations throw once the state's generation has moved on. A RecipientWorkset owns a native
-- workset, which its views copy from.
--
-- Files and what they model:
--   Common            numbers, tests, lists and integers that the modules share
--   DenseSim          include/dense/dense_sim.h. DenseSim/Types has its types; DenseSim/Functions
--                     has the functions that the bindings call, as the parameters `Library`,
--                     `ProcessLibrary` and `WorksetLibrary`, since the kernel is distributed as a
--                     binary; DenseSim/Lifetimes states as hypotheses what the header documents of
--                     the lifetime of worlds and of the arrays of a view, and that a world that
--                     could not be created leaves the out-parameter null; DenseSim/Existence, which
--                     functions bring a world into being or end one
--   Python            exceptions, results and values of CPython. The outcomes of PyArg_ParseTuple,
--                     PyObject_GetBuffer and PyObject_New are arguments of the model
--   Buffer            dense_is_little_endian, dense_buffer_format_code, dense_format_is_u64 and
--                     dense_format_is_i32, dense_buffer_acquire and dense_buffer_release, and the
--                     element reads; Buffer/Arrays relates the bytes to lists of numbers
--   World             the struct DenseWorld and the DenseWorld_* functions: World/State (errors and
--                     the state that a method works on), World/Lifecycle, World/Entities,
--                     World/Observers, World/Properties, World/Batches, and World/Calls for the
--                     method and property tables
--   View              the structs of the views and their functions: View/State for
--                     dense_fanout_require_valid, dense_normalize_index and dense_chunk_at,
--                     View/Fanout, View/Chunk, View/Sequences, and View/Reads for all of them as one
--                     type of operations
--   Leases            the arrays that either binding has borrowed, the generations that guard them,
--                     and what each change of a World does to both
--   Session           Python programs: World objects by address, the fanout views that are alive,
--                     and the steps that make, initialise, use and release them
--   Module            PyInit__dense_sim and dense_add_int_constant
--   Cpp               dense_sim.hpp: Cpp/Types (structs and conversions), Cpp/State (exceptions,
--                     detail::WorldState, ensure_open, ensure_view), Cpp/Steps (check, require_open
--                     and the statements of a method), Cpp/Process, Cpp/Lifecycle, Cpp/Entities and
--                     Cpp/Observers (the class World), Cpp/FanoutView, Cpp/ChunkDeltaView,
--                     Cpp/DeltaEntryRange and Cpp/SubscriberRange with their iterators, Cpp/Calls and
--                     Cpp/Reads for all operations as types, Cpp/Iteration for the range-based `for`
--                     statement, and Cpp/Workset for the class RecipientWorkset
--   Cpp/Variables     the World objects of a C++ program and the handles that share their states;
--                     Cpp/Program has the steps that construct, move, use and end them
--   Bindings          the methods of a Python World and the member functions of a C++ World that are
--                     the same operation
--   Sample            a library with real lifetimes, and the theorems applied to it
--
-- In the C++ binding a member function has its own name, a class the module of its name; a method
-- takes the World and the heap, and a function that only reads takes the heap. It returns a value,
-- throws, or ends in `fault`. A shared pointer is the address of a state; who holds a state is a
-- relation on the program (Refers), and the end of a shared pointer a relation of its own (Settles),
-- which destroys a state with the last object that holds it, as std::shared_ptr documents.
-- A pointer into an array is the array's address and an index. The `for` statement takes as many
-- rounds as fuel, and one round more than there are elements is shown to be enough.
--
-- A C function becomes a function with the same name, less the prefix dense_ or DenseWorld_. A
-- method takes the World's fields, the library's memory and the number of buffer exports held, and
-- returns them with a result: a value, an exception, or `fault` where the code reads memory that is
-- not there. A uint64_t or size_t is a number, with the wrap-around of view_generation written out.
-- The loops of the batches recur on the number of rounds that are left, which the count of the first
-- buffer gives, so no fuel is needed. Programs are bounded by 2 ^ 64 steps where the wrap-around of
-- a generation would let a stale view pass.
--
-- Not modelled: the kernel behind dense_sim.h and the other headers of include/dense, whose code is
-- not in the repository; reference counts, except in the initialisation of the module, and that a
-- fanout view of Python keeps its World alive; the finalizers of the sequences, which only drop
-- references; Python code that runs within a call, such as a finalizer; a failed allocation of a
-- number, text or dictionary that a method returns, or in make_shared and std::vector; threads,
-- which the interpreter's lock excludes as no function of the Python binding releases it, and which
-- may not share an object of the C++ binding; the type tables; the dereference of a C++ iterator at
-- the end of its range, which operator* does not refuse; the assignment of an object to itself; the
-- Rust binding; the scripts.
pub mod Common
pub mod DenseSim
pub mod Python
pub mod Buffer
pub mod World
pub mod View
pub mod Leases
pub mod Session
pub mod Cpp
pub mod Bindings
pub mod Module
pub mod Sample
