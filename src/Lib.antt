-- ===== src/Lib.antt =====
-- Verification library of T.U.K.I., a simulated operating system of five programs that talk over
-- sockets: the consoles send programs of pseudocode to the kernel, the kernel plans processes and
-- sends their context to the CPU, and the memory and the file system serve them both.
--
-- Parts modelled, by file:
-- - Base: native numbers, lists over them, Boolean tests.
-- - Wire/Types: the structs and enumerations of libs/include/types.h.
-- - Wire/Bytes: `memcpy` to and from a stream. A stream is the list of its bytes; a number of four
--   bytes lies lowest byte first, as on the x86 hosts of the project. A read past the end is `none`.
-- - Wire/Instruccion, Wire/Segments, Wire/Messages, Wire/Contexto: the functions
--   t_..._create_buffer and t_..._create_from_buffer of libs/src/package.c, by their names. Sizes and
--   offsets are uint32_t and wrap. The `read_` functions are the bodies of the decoders from the
--   place where `stream` points.
-- - Wire/Package: package_create, package_get_size, package_send and package_recv of
--   libs/src/package.c, over sockets that are a parameter (`Sockets`).
-- - Wire/Communication: the functions get_... and send_... of libs/src/communication.c, by their names.
-- - Memoria/Bitarray: libs/src/bitarray.c.
-- - Memoria/Algoritmos: memoria/src/algoritmos.c and get_free_space of memoria/src/utils.c.
-- - Memoria/Espacio: get_base_adress and is_malloc_possible of memoria/src/segmentos.c, and the
--   cleaning of a range of bits of memoria/src/utils.c.
-- - Memoria/Estado: the state of the memory process (memoria/include/memory_vars.h) and the lookups of
--   memoria/src/utils.c. The tables of segments hold pointers into a heap of segments, since all of
--   them share segment 0; a pointer that was freed, or NULL, may not be followed.
-- - Memoria/Datos: read_memory and write_memory, and the cases INFO_READ and INFO_WRITE of
--   cpu_fs_operations in memoria/src/modulos.c.
-- - Memoria/Segmentos: the creation of segments and tables, the case I_CREATE_SEGMENT of
--   handle_kernel_pid_instruction in memoria/src/modulos.c, and start_memory.
-- - Memoria/Borrado: delete_segment, delete_segments_table and handle_pid_status, and the case
--   I_DELETE_SEGMENT of handle_kernel_pid_instruction. `list_remove_element` is a parameter.
-- - Memoria/Compactacion: memoria/src/compactacion.c, and move_data of memoria/src/utils.c.
-- - Wire/Duplicados: the constructors and the duplicators of libs/src/types_controllers.c.
-- - Kernel/Estado: the state of the kernel, in kernel/include/kernel_structs.h and kernel_vars.h. A
--   t_recurso is a pointer into a heap; an operation that follows NULL or a pointer that was freed,
--   or waits for an answer that does not come, has no result.
-- - Kernel/Colas: kernel/src/queue_controller.c.
-- - Kernel/Recursos: WAIT and SIGNAL, and Kernel/Archivos: the open files, of
--   kernel/src/kernel_sources.c and kernel/src/kernel_instructions.c.
-- - Kernel/Salida: EXIT of kernel/src/kernel_cycle.c. Kernel/Disco: I/O, F_READ, F_WRITE and F_TRUNCATE,
--   whose work is done by a thread (io, file_processing). Kernel/Segmentos: CREATE_SEGMENT,
--   DELETE_SEGMENT and compactar. Kernel/Ciclo: EXEC, process_pcontexto_desalojo and the rest of
--   kernel/src/kernel_cycle.c.
-- - Kernel/Nucleo: kernel/src/kernel_core.c, and process_instrucciones of kernel/src/server_handle.c.
--   The names of its functions are in lower case; EXEC and EXIT are exec_process and exit_process.
-- - Kernel/Procesos: the life of a process as a state machine on the queues (`Transition`), and the
--   threads of the kernel as one step relation (`Step` in Kernel/Procesos/Hilos).
--   Kernel/Procesos/Pasos has one lemma for each operation: by which effects it changes the queues.
-- - Cpu: the module in cpu/src. Cpu/Registros and Cpu/Instrucciones: cpu/src/instrutions.c; Cpu/Mmu:
--   cpu/src/mmu.c; Cpu/Ciclo: cpu/src/instruction_cycle.c and a context in cpu/src/server_handle.c.
-- - Filesystem/Estado: filesystem/src/filesystem_core.c. The bit array and the configuration files of
--   the commons library are a parameter (`Commons`); the mapped files are their contents.
--   Filesystem/Calculo: filesystem/src/filesystem_calculate.c. Filesystem/Truncar and
--   Filesystem/Acceso: filesystem/src/filesystem_instructions.c; read_file and write_file copy the
--   same pieces of a file, which are computed first (`Piece`). Filesystem/Servidor: the service of an
--   instruction in filesystem/src/filesystem_server.c.
-- - Examples: concrete data for the theorems, and tests.
--
-- The memory process receives an instruction of the kernel in a package (Wire/Package, then
-- Wire/Messages), places or frees a segment on the table of free space (Memoria/Espacio, which
-- calls Memoria/Algoritmos on a bit array of Memoria/Bitarray), and answers with a segment or a
-- table (Wire/Segments).
--
-- The kernel sends the context of the process in EXEC to the CPU, and what comes back (Kernel/Ciclo)
-- is one of the instructions of Kernel/Recursos, Kernel/Archivos, Kernel/Disco and Kernel/Segmentos,
-- which ask the memory and the file system and set the next queue of the process; the move to it
-- follows. An operation of the kernel is one step; the steps of its threads come in any order.
--
-- Loops and bounds: a loop over an array or a list is a recursion on the rounds left. The decoder of a
-- list of instructions takes one more round of fuel than the buffer has bytes, since each
-- instruction takes 24 bytes or more; its round trip shows that this is enough. The scans of the
-- three algorithms take one more round than the table has bits, since each round moves to the right;
-- their theorems hold for the result, so the fuel does not run out. -1 in a uint32_t is 4294967295;
-- the size of the memory is below it, and below 2^31 for the source's int to count it. The loop of
-- t_lista_instrucciones_create_from_buffer may run past a malformed buffer, which is `none`.
--
-- The loop of compact_memory takes fuel: with n bytes of memory n * n + n rounds are enough, since
-- each round moves the first hole to the right, or else the first segment behind it. What `memcpy`
-- leaves of regions that overlap is a parameter. In the file system an int that may be -1 is an option,
-- and an int that is compared with a uint32_t is kept as one.
--
-- EXEC recurs on the packages that the CPU is still to send. The loop that admits processes, the
-- creation of a segment with its compactions, and the loop of the CPU take fuel. The first needs one
-- more than NEW has processes, the second one more than the answers that the memory gives, and the
-- third one more than the instructions that are left.
--
-- Not modelled: logging, the menus on the terminals, delays and connections; t_open_files, whose
-- encoder and decoder return NULL; the start and the end of the file system, which map its files;
-- the console; the locks of the kernel, whose operations do not interleave here but for the sizes
-- that Kernel/Procesos/Carrera reads; the times of a PCB with the ratios of HRRN, so that the
-- planner is any function that keeps the processes of READY; overflow of an int that counts
-- instances; the handshakes of libs/src/communication.c. The bytes that malloc leaves in the
-- buffer of a message are not modelled either: the stream of a buffer is what was copied to it.
pub mod Base
pub mod Wire
pub mod Memoria
pub mod Kernel
pub mod Cpu
pub mod Filesystem
pub mod Examples
