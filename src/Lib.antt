-- ===== src/Lib.antt =====
-- The LC-3 script tools: the virtual machine lc3sim-c, the instruction macros of lc3sim_cpp, the
-- interactive simulator and the symbol table of lc3tools, and the linker lc3pp of the C compiler with
-- its SourcePaste.
--
-- The assembler of lc3tools makes object files, with the symbol table for its labels; lc3sim-c loads
-- the operating system's object file and the program's, and runs them; the macros of lc3sim_cpp put
-- instruction words together and take them apart. lc3tools/lc3sim.c is the second simulator: it loads
-- object and symbol files by command, and runs, shows and changes the machine. lcc-1.3/lc3pp puts the
-- compiler's output and the library together into one source for the assembler, and SourcePaste puts
-- the lines of C into it.
--
-- Vm (lc3sim-c/vm.c, vm.h and types.h). Vm/Types: the two builds, with and without LC3_32BIT, the
-- special addresses, the results, the operation codes. Vm/State: struct vm_impl as a record, with
-- what the C library was asked and what was put out; a statement is a function from the machine to
-- a result and a machine (M), and a return of a result other than VM_SUCCESS is a value (stop). A
-- register or a cell is a number below 2 ^ 16 or 2 ^ 32, and every store writes its wrap-around out.
-- Vm/Memory: vm_create, vm_mem_read, vm_read, vm_write. Vm/Perform: vm_perform, a function for each
-- case. Vm/Run: vm_run. Vm/Load: vm_load_os, vm_load_file, vm_load_data and LC3_SWAP. Vm/Triple:
-- statements that keep a predicate on the machine, and its children the proof for each function.
-- Vm/Invariant: the predicates for which that is done. Vm/Rounds: the loop as a relation.
-- Vm/Program: main (lc3sim-c/main.c), without the terminal's settings and the messages.
--
-- Instr (lc3sim_cpp/instr_parser.h, instr_maker.h and instr_config.h). Instr/Layout: the widths of the
-- fields. Instr/Parser and Instr/Maker: a function for each macro, in uint64_t, and Instr/Asserted the
-- makers with their assertions. Instr/RoundTrip, Instr/OneRegister and Instr/Checks: what is made and
-- then read. Isa: the instructions of 16 bits that the makers build, performed by Vm.
-- Isa/Halt: a program that stops the clock.
--
-- Symbol (lc3tools/symbol.c and symbol.h, with MAP_LOCATION_TO_SYMBOL). Symbol/Names: symbol_hash,
-- tolower, strcasecmp. Symbol/Table: the table, find_symbol, add_symbol, remove_symbol_at_addr. A
-- pointer is a number, and a linked chain is a list of them. Symbol/Lookup and
-- Symbol/Adding: the table as a map from names to addresses. Symbol/Removal: a symbol that is given a
-- second address. Symbol/Unlink, Symbol/Emptied, Symbol/Ordered and Symbol/Removing: chains in order,
-- and what adding and removing keep.
--
-- Sim (lc3tools/lc3sim.c, lc3sim.h and lc3.def, in the build without readline and without the GUI's
-- device emulator). Sim/State: the static variables as a record, and a function of the program as one
-- from the state to a result and a state (M); `exit`, an access past the end of an array, and a
-- division by 0 or a shift by 32 or more are results (Stop). An int is its 32 bits. Sim/Text: what
-- printf and the string functions make. Sim/Inst and Sim/Table: the fields, the formats, and the
-- instruction table as a list. Sim/Memory, Sim/Store: read_memory, write_memory and the delayed
-- updates of the GUI. Sim/Disassemble, Sim/Dump, Sim/Show: what is printed of the machine. Sim/Code:
-- the code blocks of lc3.def. Sim/Execute: execute_instruction, halt_lc3, run_until_stopped.
-- Sim/Scan, Sim/Address: sscanf, parse_address, parse_range. Sim/Files: read_obj_file,
-- read_sym_file, squash_symbols, over Symbol. Sim/Breakpoints, Sim/Break, Sim/Commands, Sim/Settings,
-- Sim/Help, Sim/Machine: the commands, init_machine and cmd_reset. Sim/Command, Sim/Loop: the table of
-- commands, command_loop and the scripts. Sim/Main: main. Sim/Triple: statements that keep a predicate
-- on the state, and its children the proof for each function. Sim/Run: what a run does. Sim/Decode: a
-- decoder by fields, against the table. Sim/Agree: instructions of lc3sim.c beside those of lc3sim-c.
-- Sim/Address/Range, Sim/Break/Effect: the addresses that commands take, and the command break.
--
-- Lc3pp (lcc-1.3/lc3pp/lc3pp.c). Lc3pp/Lines: Readline, Getword and the functions of the C library, with
-- the ways in which the program ends (Ending), an endless read past the end of a file among them; a
-- file is the list of its lines. Lc3pp/Link: the names that the files define and ask for, as main
-- collects them. Lc3pp/Import, Lc3pp/Resolve: resolve_externs. Lc3pp/Split: variables and code
-- apart, and the table of variables. Lc3pp/Address: calculate_address, as a list of lines and as their
-- text, and its children those lines as words, which Instr makes and Vm runs, since the assembler is
-- generated from a flex source. Lc3pp/Ldr: check_ldr. Lc3pp/Emit: the output, and the code in it run.
-- Lc3pp/Main: main, over what fopen finds. Lc3pp/Paste (lcc-1.3/lc3pp/SourcePaste.c): OutputSource, the
-- directives, and main in Lc3pp/Paste/Main. Lc3pp/Paste/Listing: what OutputSource puts
-- out, line by line.
--
-- Base: arrays as functions, lists measured by native numbers, bits and fields of words, signed
-- numbers and two's complement at any width. Tests: runs, and the theorems at concrete inputs.
--
-- Fuel: vm_run has no bound of its own, since a program of the machine may run on, so it takes the
-- number of rounds allowed, and gives `none` when they are used up. In Sim the same holds of run_loop,
-- command_loop, read_line and flush_loop, whose length the world decides: they take fuel, which the
-- commands and scripts of a loop share, and `out_of_fuel` is a result. The loops over addresses have
-- fuel of their own, enough for every address: 65536 for disassemble and squash_symbols, 10923 rows
-- for dump_memory; read_sym_file has a round for each byte of its file. In Lc3pp the imports
-- of resolve_externs have fuel, since they may take a file back to its start or make the list of
-- externs longer without end; add_steps has as much as the offset, and offsets the length of its
-- text, and each turn takes at least one of that. Every other loop is structural: the copying loop
-- counts down, and the chains are lists.
--
-- Parameters: a Console answers `select` and `getchar`, call by call, with EOF as an answer. What
-- `open`, `fstat` and `mmap` give is an argument. The host is little-endian with a size_t of 64
-- bits. An access outside an object that the program may make is a result of its own. A World answers
-- the calls of lc3sim.c to poll, fgetc, fgets, random and fopen, and tells when SIGINT was delivered,
-- by the number of calls made before; a signal is noticed between two instructions. The bytes put on
-- stdout, on lc3out and on the trace file are kept apart, so that their interleaving is not modelled
-- where two of them are one terminal.
--
-- Not modelled: the terminal settings and messages of lc3sim-c, and the terminal settings and the
-- sockets (launch_gui_connection) of lc3sim.c, which are input and output alone; the C++ classes of
-- lc3sim_cpp; the flex sources of lc3tools; of lcc-1.3/lc3pp/lc3pp.c the sizes of the
-- buffers; and the lcc compiler in lcc-1.3, which is another project's.
pub mod Base
pub mod Instr
pub mod Vm
pub mod Isa
pub mod Symbol
pub mod Sim
pub mod Lc3pp
pub mod Tests
