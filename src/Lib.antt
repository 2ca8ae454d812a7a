-- ===== src/Lib.antt =====
-- A model of the bin-os kernel: its heap, its C strings, its frame buffer, its terminal and its
-- shell, its keyboard, serial port, timer and interrupt controllers, its descriptor tables and its
-- clock, with what makes them correct.
--
-- The parts, and the files that model them (paths are from the repository's root):
--
-- * The heap, kernel/src/memory.c. Memory.antt has the allocator over a state of headers and bytes
--   (`Heap`): `malloc`, `free`, `calloc`, `realloc`, `get_heap_stats`, and `memcpy`, `memset` and
--   `memmove`. A header is stored whole at its address; a store to one of its bytes makes it
--   unreadable, and a header that is stored makes its bytes unreadable, so a client that writes
--   outside its blocks meets a fault. The address of the array is a parameter, since the linker
--   chooses it. Memory/Cells.antt has the abstract view, a list of sizes with a free flag, on which
--   `allocate`, `release` and `merge` say what the functions mean; Memory/Chain.antt says when a
--   heap holds such a list. Memory/Claim, Coalesce, Malloc, Free and Calloc follow the functions,
--   Memory/Layout and Restore are about the abstract view, Memory/Bytes about the byte functions,
--   and Memory/Client about sequences of calls.
-- * C strings, the last functions of kernel/src/memory.c. CString.antt has them over arrays with a
--   size, in which an access outside is a fault; CString/Laws.antt and CString/Copy.antt have their
--   theorems.
-- * The frame buffer and the text cursor, kernel/src/draw/draw.c: Draw.antt, with the font of
--   kernel/src/font.c in Draw/Font.antt. Draw/Clip.antt, Draw/Strings.antt and Draw/Clear.antt are about
--   what drawing changes, Draw/Centered.antt has the functions that draw in the middle, and
--   Draw/Cursor.antt is about the cursor. Coordinates are integers, and a string whose cells leave
--   `int` is a fault; other sums of coordinates are taken without an overflow. The cursor is 16 bits
--   wide. The frame buffer has no size.
-- * The terminal, the output half of kernel/src/shell/shell.c: Terminal.antt prints text by drawing
--   characters and moving the cursor, and Terminal/Laws.antt shows that it ends and stays inside.
-- * The line editor and the history, the input half of the same file: Shell.antt has the state (the
--   file's static variables and the screen) and the editing functions, Shell/Input.antt the history
--   and `input`. Shell/State.antt has the invariant `IsShell`; Shell/Shift, Line, Edit, Word and Move
--   are about the line, Shell/History, Recall and Enter about the history, and Shell/Keys about
--   `input` as a whole. The editor calls the string functions on its arrays and the terminal on
--   its screen.
--
-- * The commands, the rest of that file: Shell/Command.antt has `parse_args`, `parse_command`, the
--   `cmd_` functions and `shell_init`. What the stack holds where the arguments go is a parameter.
--   Shell/Command/Word and Args are about the arguments, Find about the choice of the command, Run
--   and Parse about running it, and Session about any keys after the start.
-- * Numbers as text: Number.antt has `to_string` of kernel/src/utility.c and `int_to_string` and
--   `uint_to_string` of kernel/src/serial/serial.c over bounded arrays. Number/Digits and Text say
--   what they write, Number/Read reads it back, and Number/Same and Static compare the two.
-- * The ports, kernel/src/io.h: Io.antt. What a device does with a read or a write is not in the
--   source, so it is a record of two functions (`Ports`) over a type of device states, and what the
--   code relies on stands as a named hypothesis beside the component: `Uart`, `Wired`, `Quiet`,
--   `Latches` and `Clock`. A loop that polls a port has `patience` rounds, and `Uart` says that the
--   serial port answers within them.
-- * The serial port, kernel/src/serial/serial.c: Serial.antt. Serial/Line.antt is about what is sent,
--   Serial/Printf.antt describes the formats by a relation (`Piece`, `Renders`), and Serial/Sends.antt
--   shows that `serial_printf` sends that; Serial/Text.antt has the texts of numbers.
-- * The keyboard, kernel/src/ps2_keyboard/keyboard.c: Keyboard.antt. Its state is the flags, the shell
--   and the devices together (`Machine`), since a key runs the line editor and the commands and
--   reports to the serial port. Keyboard/Maps and Typing are about the scan codes, Logs about the
--   messages, Safe and Keys about one byte, and Interrupts about any number of them.
-- * The interrupt controllers, kernel/src/cpu/pic/pic.c: Pic.antt, with the masks in Pic/Masks.antt.
-- * The timer, kernel/src/timing/timer.c, and `irq_handler` of kernel/src/cpu/interrupts/idt.c:
--   Irq.antt, over the machine and the tick counter. `timer_wait` halts until an interrupt comes, so
--   it takes the interrupts to come: those before its first test, and in each round (`Round`) those
--   between the test and `hlt`, the one that ends `hlt`, and those before the next test. Irq/Wait.antt
--   shows that it ends.
-- * The processor's tables: Gdt.antt has the segment descriptors of kernel/src/cpu/gdt/gdt.c and
--   Idt.antt the gates of kernel/src/cpu/interrupts/idt.c, as functions from an index to an entry;
--   the addresses of the stubs and of the task state are parameters. Gdt/Laws.antt and Idt/Laws.antt
--   decode them the way the processor does.
-- * The clock, kernel/src/timing/rtc/rtc.c: Rtc.antt has the conversion of the registers' values and
--   the text of the time, Rtc/Laws.antt their theorems, and Rtc/Clock.antt the registers and the loop
--   that reads them. Rtc/Stable.antt has the hypothesis on the clock (`Clock`), whose registers may
--   change while they are read, and Rtc/Time.antt the theorem on the reading.
--
-- Stateful code passes its state on in a monad whose `none` is a fault: a read of memory that is no
-- header, an access outside an array, or a poll of a device that is not answered in time. Loops over the blocks of the heap run on 174763 rounds, more
-- than the array has room for headers, and a chain of blocks is shown to be shorter; the string loops
-- have one round for each byte of an array and one more. Sizes of the heap are kept modulo 2^64. The
-- shell's `int` variables stay below 2^31 in every well-formed state, so they are natural numbers.
--
-- Not modelled: ACPI, which calls a library that is not in the repository; the speaker, the clock's
-- interrupts and `isr_handler`, which write to ports and halt; `init_framebuffer`, which reads the boot
-- loader's answer; `install_irq_handler`; `print_heap_status`; and the order of the calls in
-- kernel/src/main.c.
pub mod Base
pub mod CString
pub mod Draw
pub mod Gdt
pub mod Idt
pub mod Io
pub mod Irq
pub mod Keyboard
pub mod Memory
pub mod Number
pub mod Pic
pub mod Rtc
pub mod Serial
pub mod Shell
pub mod Terminal
