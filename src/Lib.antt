-- ===== src/Lib.antt =====
-- grafted runs Darwin (macOS) binaries on Linux. This library models the parts of it that hold
-- state and decide something, in Rust under crates/.
--
-- How the parts interact: the loader reads a Mach-O file, maps its segments and patches its
-- pointers with the addresses of its imports; the linker loads the libraries it needs, which the
-- resolver finds, and looks up their symbols. What then runs, on the stack that the executor
-- builds, makes Darwin system calls, which are caught by a signal handler and translated to Linux
-- ones; Mach calls, which are served by ports within the process; and messages to Objective-C
-- objects, which are looked up in the runtime's registries. Its main loop is the run loop, and
-- observers are told of events by the notification center, which finds their methods by the same
-- registries. The objects that such a program shares are Core Foundation's, which count references,
-- and it draws into bitmap contexts.
--
-- Which file models what:
--   Loader/Outcome     crates/grafted-loader/src/error.rs, with panics as an outcome
--   Loader/Format      the types of crates/grafted-loader/src/macho.rs
--   Loader/Macho       its functions: parse, parse_fat, parse_single, extract_info, tlv_init_image
--   Loader/Mapper      crates/grafted-loader/src/mapper.rs: map_segment, map_binary
--   Loader/Fixups      crates/grafted-loader/src/chained_fixups.rs: apply_fixups, whose loops are
--                      resolve_imports, fix_segments, fix_pages and walk_chain
--   Loader/Memory      the words that raw pointers read and write there
--   Loader/Executor/Stack
--                      crates/grafted-loader/src/executor.rs: build_stack
--   Loader/Executor/Syscalls
--                      process_syscall of the same file
--   Loader/Executor/Selectors
--                      selector_page and alloc_thread_selector, called by many threads, and
--                      grafted_selector_allow
--   Loader/Executor/Signals
--                      alloc_trampoline_for, sigsys_handler, enable_sud, setup_thread_sud
--   Loader/Executor/Decode, Crashes
--                      decode_binary_insn, sigsegv_handler, grafted_set_lifecycle_skip_mode and
--                      grafted_nop_saved_crash_sites
--   Mach/Port, Space   crates/grafted-dyld/src/mach_ipc.rs: ports, and PortSpace with its methods
--   Mach/Message       mach_msg of the same file, with its send and its receive phase
--   Dyld/Resolver      crates/grafted-dyld/src/resolver.rs: DylibResolver
--   Dyld/Linker        crates/grafted-dyld/src/linker.rs: resolve, find_symbol_in_binary,
--                      resolve_external
--   Dyld/Linker/Bind   bind, bind_nl_symbol_ptrs
--   Dyld/Linker/Init   run_initializers
--   Dyld/Linker/Classes
--                      auto_create_objc_class
--   Dyld/Linker/Metadata
--                      run_all_initializers, with register_objc_metadata and
--                      register_objc_class_names
--   Dyld/Linker/Load   load_dependencies, with the resolver, the parser and the mapper
--   Kernel/Syscall     crates/grafted-kernel/src/syscall.rs: translate and its table
--   Objc/Runtime       crates/grafted-objc/src/runtime.rs: class_addMethod, objc_registerClassPair,
--                      objc_getClass, sel_registerName, grafted_lookup_method
--   RunLoop/Mode       crates/grafted-frameworks/src/cf/runloop.rs: names of modes, the loop's data
--   RunLoop/Registry   its sources, timers and observers: add, remove, contains
--   RunLoop/Pass       CFRunLoopRunInMode, phase by phase, and CFRunLoopRun
--   Foundation/Notification
--                      crates/grafted-frameworks/src/foundation/notification.rs
--   Foundation/Center  ns_notification_center_default of the same file, called by many threads
--   Cf                 crates/grafted-frameworks/src/cf/types.rs: the heap of counted objects
--   Cf/Arrays, Dictionaries, Buffers, Strings
--                      array.rs, dictionary.rs, data.rs and string.rs beside it
--   Cf/Unicode         the standard library's UTF-8 and UTF-16
--   Cf/Ownership       who holds references, and the clients that respect it
--   Cg/Geometry, Color crates/grafted-frameworks/src/cg/geometry.rs and color.rs
--   Cg/Context         context.rs beside them: pixels, rectangles, the stack of drawing states
--   AppKit/View        crates/grafted-frameworks/src/appkit/view.rs: views and their tree
--   AppKit/Menu, Text  menu.rs beside it, and the texts in arrays of a fixed size
--   AppKit/Window      window.rs
--   Swift/Strings      crates/grafted-frameworks/src/swift_string_abi.rs
--   Swift/Classes      swift_metadata_translate.rs beside it
--   Swift/Sections     swift_sections.rs
-- The modules below them hold theorems, and each part's Tests run its definitions and apply the
-- theorems. Base holds what they share.
--
-- How state and operations correspond: a struct is a record with the source's field names, an
-- operation on it is a function from the state to the next one and the result, and a lock that is
-- held for a whole call makes the call one step. Where threads interleave within a call (Center,
-- Selectors), the atomic steps are a relation on states. A HashMap is an association list of which
-- only look-ups are said, a raw pointer is a number with 0 for null, and memory is a function from
-- addresses. Integers are natural numbers whose wrap-around in 32 or 64 bits is written out, as a
-- build without overflow checks computes.
--
-- Parameters: the goblin library, which decodes Mach-O files (the record Goblin); the system calls
-- for mapping (Os) and those that a program makes (Host); Rust's paths and the file system (Paths);
-- C strings and what stands behind pointers (Strings, Heap, c_string); the application's callbacks,
-- its methods and the clock (Env, Times, Runtime); the window server (Display); floating-point
-- numbers (Floats); and what calloc and Box give (fresh).
--
-- Bounds and fuel: a mode name is read for at most 64 bytes, as in the source. walk_chain has fuel
-- for the entries of one chain, and a chain of n entries needs n. CFRunLoopRun has fuel for its
-- passes; it returns after the first that was stopped, so that many are enough. load_dependencies
-- has fuel for the turns of its loop; the libraries' names and their dependencies bound these.
--
-- Not modelled: the jump to the entry point and the installation of handlers; the shims over the C
-- library; the application's event loop and pasteboard; the loading of the Swift runtime; the
-- symbol registry, which is a table; and what is input or output only. Logging, mprotect before a
-- patch, the epoll descriptor of the run loop, and the assembly of objc_msgSend are left out of the
-- parts that are modelled.
pub mod Base
pub mod Mach
pub mod Kernel
pub mod Loader
pub mod Dyld
pub mod RunLoop
pub mod Foundation
pub mod AppKit
pub mod Cf
pub mod Cg
pub mod Objc
pub mod Swift
