-- ===== src/Lib.antt =====
-- BlueRetro turns the reports of wireless controllers into the signals of a console's port. This is the
-- verification of its adapter, main/adapter, the part between the two.
--
-- A controller describes its reports in a HID descriptor, which the parser reads once. A report becomes
-- a generic set of buttons and axes, which the configuration of the output maps to the outputs of the
-- console. Combos of buttons give commands to the system, and the memory card of a console is kept in
-- memory and stored in blocks.
--
-- Files and code:
--   Prelude          bits of machine words, lists and memory on the native numbers, loops
--   Adapter/Ids      the enumerators of main/adapter/adapter.h
--   Adapter/HidParser     main/adapter/hid_parser.c
--     Usage, Types, State   the tables of usages, the structures, the parser's variables
--     Main, Items, Parse    the main item, the other items, and `hid_parser` as a whole
--     Report                patching, fingerprints and `hid_process_report`
--   Adapter/Macro         main/adapter/macro.c: `sys_macro_hdl` and its table
--   Adapter/Config        main/adapter/config.c and the structures of main/adapter/config.h
--     Layout, Init, Load    the bytes, the defaults, and loading with the upgrades
--     Reset                 `config_is_rst_required` and its static variables
--   Adapter/Quirks        main/adapter/mapping_quirks.c, a function per quirk
--   Adapter/Buttons       the tables of main/adapter/adapter.c between buttons and axes
--   Adapter/Mapping       `adapter_mapping` of main/adapter/adapter.c and what it calls
--   Adapter/MemoryCard    main/adapter/memory_card.c
--   Adapter/HidGeneric    main/adapter/wireless/hid_generic.c, with the keys of Adapter/KbIds
--     Types, Fields         what is kept of a device; how a field of a report is read
--     Kb, Mouse             the initialisation and the reading of keyboards and of mice
--     PadUsages, PadButtons `hid_pad_init`; Pad: the reading; Generic: the whole functions
--     Rumble                `hid_fb_from_generic`
--   Adapter/KbMonitor     main/adapter/kb_monitor.c; its queue is that of Queue
--   Queue                 components/queue_bss/queue_bss.c, the queue between the two cores
--     Ring, Bss             the ring of liblfds711 as an interface, and the code over it
--     Fifo                  the abstract queue and a client's calls, on it and on the code
--   Adapter/Wired         the turbo masks of main/adapter/wired/wired.c (Turbo) and struct wired_data
--     N64                   main/adapter/wired/n64.c: its tables; Pad, the pad; Others, the mouse and
--                           the keyboard; Dispatch, the entry points, the buffers and the feedback
-- The other files of a folder are lemmas on the definitions; Tests has runs at concrete inputs.
--
-- How the code is modelled: unsigned words are natural numbers with their wrap-around written out, and
-- signed fields that are only copied keep their 32-bit pattern. An array is a function from the index,
-- so that a write past its end is a write to an index past its end; struct config is packed, and its
-- arrays lie one after the other, so there such a write lands in the next field. A loop with a counter
-- is `for_range`, which runs its body as often as the source does. The loop of the descriptor parser
-- runs on fuel, one unit for each byte of the descriptor, which is enough since every item reads its
-- label. The loops over consecutive usages in HidGeneric run on fuel too, one unit for each entry of the
-- array of usages, behind which the source reads other memory. A null pointer or a value of -1 is `none`, or a truth value where the code only tests it.
--
-- Parameters: the memory behind the descriptor and the answers of the allocator (HidParser); whether
-- the file opens, the bytes that a read that comes short leaves, and the contents of non-volatile
-- storage (Config, MemoryCard); the single-precision arithmetic (Mapping); the ring of liblfds711, with
-- what its manual says of it, its sizes, and the answers of the allocator (Queue); the product with MAX_PULL_BACK,
-- the scaling of a rumble and the memory behind the constant tables of keys and buttons (HidGeneric).
--
-- Not modelled: the Bluetooth host and its HID drivers (main/bluetooth), the drivers of the console
-- ports (main/wired), the system manager and the file system (main/system), the adapters of the
-- other families of controllers (main/adapter/wireless) and of the consoles but the N64
-- (main/adapter/wired), the
-- identifiers of games, logs and debug output. They
-- touch hardware or are separate components. In the parser the moment when a report's memory is freed
-- is left out. In the memory card the file has whole blocks.
pub mod Prelude
pub mod Adapter
pub mod Queue
