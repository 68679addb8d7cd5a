-- ===== src/Lib.antt =====
-- WHDD: tests and copies hard disks on Linux.
--
-- A frontend (cui/main.c, cli/main.c) picks a device and a procedure. A procedure is a record of
-- functions open, perform and close (libdevcheck/procedure.h); the frontend opens it and runs
-- dc_procedure_perform_loop, which calls perform for one block after the other and the frontend's
-- callback after each. The procedures that read or write the whole device are the copy
-- (libdevcheck/copy.c with the read strategies of libdevcheck/copy_read_strategies.c), the read test
-- (libdevcheck/read_test.c) and the zero filling (libdevcheck/posix_write_zeros.c). The ATA API of the
-- first two sends commands by libdevcheck/ata.c and libdevcheck/scsi.c. The callback of cui/main.c
-- hands each report to a renderer (cui/sliding_window_renderer.c, cui/whole_space_renderer.c), which
-- puts it into a ring buffer, from which a thread of its own counts and draws it.
--
-- Files:
--   Prelude: names of the libraries; Boolean tests, lists and words of 64 bits.
--   Procedure, Procedure/Loop: the shared types, and `loop` for dc_procedure_perform_loop over any
--     procedure and any callback. A round's first part is the interrupt flag as it is read.
--   Procedure/Settings: the options part of dc_procedure_open.
--   Procedure/Registry: the list of procedures, dc_procedure_register to dc_get_procedure_by_index.
--   Procedure/Interrupt: procedure_perform_until_interrupt of libdevcheck/utils.c.
--   Devices: the list of devices of libdevcheck/libdevcheck.c, and the search by name of cui/main.c.
--   MaxLba: the highest LBA of a drive in libdevcheck/utils.c, and hpa_set.c. What a drive does is a
--     hypothesis, MaxLba/Drive.
--   Probe: libdevcheck/blk_probe.c.
--   QuickDiagnosis: libdevcheck/quick_diagnosis.c.
--   Frontend: the order of events that both frontends keep; Frontend/Cli is the main loop of
--     cli/main.c, Frontend/Cui the command line and the main loop of cui/main.c.
--   Ata, Scsi: prepare_ata_command, prepare_scsi_command_from_ata, fill_scsi_ata_return_descriptor,
--     get_sense_key_from_sense_buffer and scsi_ata_check_return_status, byte by byte.
--   Copy/Zones, Copy/State: struct zone as a list of nodes with addresses, and struct copy_priv.
--   Copy/Strategies: get_task and use_results of all five strategies; Copy/GetTask, Copy/UseResults
--     and the files that they use (Choice, Split, Current, Smart, Skipfail, Border) prove what they do.
--   Copy/Perform: Perform of copy.c; Copy/Ready, Written, Conclude and Progress are about a round,
--     Copy/Run about the loop, Copy/Contents and Copy/Faithful about the destination's bytes.
--   Copy/Journal, Copy/Open: the journal and Open of copy.c.
--   ReadTest: Open, Perform, the counters and the defect intervals of read_test.c, and
--     dc_get_vis_thresholds of libdevcheck/utils.c.
--   WriteZeros: posix_write_zeros.c.
--   Scsi/Capacity: dc_scsi_read_capacity16 of libdevcheck/scsi.c.
--   Render/SlidingWindow: what both threads of cui/sliding_window_renderer.c do: HandleReport, and the
--     counting of render_queued.
--   Render/Queue: the ring buffer of reports of cui/sliding_window_renderer.c, and the accesses of the
--     two threads to it as a sequence of steps.
--   Render/WholeSpace: the counters and the map of cui/whole_space_renderer.c, with the journal that its
--     Open reads.
--   Utils/Comma, Utils/AtaString: commaprint, dc_sanitize_for_filename and dc_ata_ascii_to_c_string of
--     libdevcheck/utils.c.
--
-- State is passed on explicitly: an operation takes the context and returns the new one. `none` is an
-- abort (an assert that fails, a null pointer that is dereferenced) or an int that overflows. The
-- kernel's answers to ioctl,
-- read, write, malloc and open are arguments; a theorem that needs a call to succeed says so.
--
-- Numbers are natural numbers. Fields of 64 bits wrap where the code adds, subtracts or multiplies;
-- an int64_t is its bit pattern where it may be negative. The copy's LBAs are not negative in any
-- state that Open leaves. Bounds on a disk are 2 ^ 54 sectors, since byte offsets are of 64 bits.
--
-- The product of skip_blocks and 256 that Perform computes is an int: a state is valid
-- only if it fits, and Open is usable only with such an option. Memory for the zones that a
-- strategy splits is a field of the state, as Open finds it; the zones that Open itself makes are
-- taken to be allocated. dc_ata_ascii_to_c_string counts words in 8 bits, and render_map counts
-- blocks in 31.
--
-- The loops over lists are structural recursion. The procedure's loop runs over the list of its
-- rounds' answers, and ends within as many rounds as there is progress to make. The filling of a new
-- journal has the number of sectors as fuel, of which each round needs one; the digits of a uint64_t
-- are at most 20.
--
-- Not modelled: the frontends' drawing and dialogs, of which only the answers count, logging and the report files'
-- text; option strings, for which the enumerations stand that they are compared with; Close; the
-- read-ahead setting and the flushing of buffers, whose failures are only logged.
pub mod Prelude
pub mod Procedure
pub mod Ata
pub mod Scsi
pub mod Copy
pub mod ReadTest
pub mod WriteZeros
pub mod Render
pub mod Utils
pub mod Probe
pub mod Devices
pub mod MaxLba
pub mod Frontend
pub mod QuickDiagnosis
