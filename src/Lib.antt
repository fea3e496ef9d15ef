-- ===== src/Lib.antt =====
-- A verification library for the Xen Test Framework: microkernels that run as guests of Xen, a C
-- library that they are linked with, and the tests themselves. Modelled are the library's core and some of
-- the tests.
--
-- The parts and their files:
--
--   Base      how a call ends (Run: a value, undefined behaviour, or a model's fuel used up), numbers,
--             lists and integers that the parts share.
--   CString   common/libc/string.c. A pointer is the list of the bytes from it to the end of its
--             object, so that a read or write past the object is a fault.
--   Div       arch/x86/include/arch/div.h, both builds of divmod64().
--   Printf    common/libc/vsnprintf.c. Out is the output buffer with `str` and `end` and the macro PUT;
--             Number, Str, Pointer and Parse are fmt_number(), fmt_string(), pointer() and the reading
--             of a conversion specification, and Format is vsnprintf_internal(). It calls CString for
--             the length of a string, Div for digits, and arch_fmt_pointer() as a parameter whose
--             promise is UniformHook.
--   Decode    arch/x86/decode.c, which is that hook, exinfo.h, and snprintf() of common/libc/stdio.c.
--   Heapsort  common/heapsort.c, with the caller's functions as the interface Client and what they
--             have to satisfy as IsLawful.
--   Extable   common/extable.c, a client of Heapsort.
--   Traps     arch/x86/extable.c and arch/x86/traps.c, a client of Extable. The
--             handler at an address and the hook do_unhandled_exception() are parameters.
--   Report    common/report.c, panic() of common/lib.c and xtf_main() of common/setup.c. The state is the
--             status, the flag for warnings, and a trace of the calls of vprintk() and of Xen.
--   Domid     the rest of common/lib.c. Xen is the interface of the hypercalls that it makes.
--   Console   common/console.c: vprintk(), which calls Printf and hands the text to the callbacks, and the
--             two rings that are shared with xenconsoled, which is a parameter as xenstored is.
--   Msr       arch/x86/msr.c, which reports through Report; what the instructions do is an interface.
--   Grant     common/grant_table.c and arch/x86/grant_table.c.
--   Apic      arch/x86/apic.c and apic.h, with the processor as an interface.
--   Xenbus    common/xenbus.c: the two rings of the page that is shared with xenstored, and the message of
--             xenstore_read(). xenstored is a parameter, a function on the page and a state of its own.
--   Paging    the helpers of page-pae.h, page-pse.h, pagetable.h and mm.h in arch/x86/include/arch.
--   Desc      x86-gate.h and desc.h of arch/x86/include/arch, and the table of arch/x86/desc.c.
--   IoApic    arch/x86/io-apic.c and io-apic.h; the memory of the device is an interface.
--   Hpet      arch/x86/hpet.c and hpet.h, with the registers as an interface.
--   Setup     arch/x86/setup.c: what CPUID says of the processor and of Xen, and the rings of the console and
--             of xenbus, which it hands to Console and Xenbus.
--   HvmTraps  arch/x86/hvm/traps.c, a client of Desc: the tables of an HVM guest.
--   PvTraps   arch/x86/pv/traps.c, with the hypercalls as an interface: what a PV guest tells Xen.
--   Suite     programs under tests/ and selftests/, clients of Report: each a function on a machine, which is
--             an interface, and a report. Effect is a calculus of what a part of a test does to both;
--             CpuidFaulting, Xsa278, Umip, Invlpg, Swint, Argo and Selftest are the tests of that name, and HeapsortTest
--             is selftests/heapsort.c, a client of Heapsort. Selftest calls Printf.
--   Vmx       the error names of arch/x86/vmx.c.
--   Tss       arch/x86/x86-tss.c: what it prints of a Task State Segment.
--   Tests     runs at concrete inputs.
--
-- The target is x86_64: int has 32 bits, long and pointers 64, a char is signed. A number of w bits is
-- a natural number below 2 ^ w, or an integer where the code has a signed type that cannot overflow.
-- The width and the precision of a conversion are integers without bounds: within one conversion the
-- code only counts them down, and the model does not show an overflow beyond INT_MIN. A string that is an
-- argument of a conversion has fewer than 2 ^ 31 bytes, so that the `len` of fmt_string() is its
-- length, and a text has fewer than 2 ^ 64 characters, so that the pointer `str` does not wrap around.
-- The result of vsnprintf_internal() is converted to int, and a write outside of its buffer is
-- undefined.
--
-- Fuel: siftdown() moves down at least one element a round and is given one round more than there are
-- elements; search_extable() halves what is left and is given as many rounds as there are entries, and
-- two; the loop of vsnprintf_internal() consumes at least one character a round and is given as many
-- rounds as the format string has characters.
--
-- Another program that shares memory with the driver, xenstored or xenconsoled, runs at the places where
-- the driver looks at the memory again, so that a wait is a round that does nothing. xenbus_write()
-- writes at least one byte a round. xenbus_read() reads at least one byte a round, or xenstored takes a
-- request in it: 1023 rounds more than there are bytes are enough. pv_console_write() needs a round for
-- its text and one for each byte that xenconsoled has to take. The loop of find_xen_leaves() has its
-- 256 candidates; hpet_read_counter() on 32 bits needs two rounds. The loop of run_tlb_refill_test() has
-- its own count of 20 tries.
--
-- Not modelled: arch_setup() as a whole, the assembly and the inline assembly of the environments, the
-- hypercall stubs, tables that hardware reads and that are built at compile time, the 32 bit builds
-- but for their helpers of page tables and gates, the other tests, which are in the main sequences of
-- instructions, and the build. What an instruction of a test does is an interface, and so is the end of
-- the program where panic() is called in between.
pub mod Apic
pub mod Base
pub mod CString
pub mod Console
pub mod Decode
pub mod Desc
pub mod Div
pub mod Domid
pub mod Extable
pub mod Grant
pub mod Heapsort
pub mod Hpet
pub mod HvmTraps
pub mod IoApic
pub mod Msr
pub mod Paging
pub mod Printf
pub mod PvTraps
pub mod Report
pub mod Setup
pub mod Suite
pub mod Tests
pub mod Traps
pub mod Tss
pub mod Vmx
pub mod Xenbus
