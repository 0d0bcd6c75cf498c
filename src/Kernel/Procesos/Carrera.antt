-- ===== src/Kernel/Procesos/Carrera.antt =====
-- kernel/src/kernel_core.c: a process that a thread wakes while get_actual_multiprog reads the sizes of
-- the queues is missed.
