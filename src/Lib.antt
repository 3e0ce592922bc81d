-- ===== src/Lib.antt =====
-- ROMCloud keeps a library of games on remote storage, a cache of some of them on a Batocera device,
-- and the save files of the games in step on both. This library models the decisions of those
-- parts: what is uploaded, downloaded or kept, and what the cache admits. Paths are from the
-- repository's root, below src/romcloud/.
--
-- Parts:
-- SaveContainers: core/save_containers.py, the planner that merges memory cards by logical
--   domain. `SaveContainers.Plan` follows `plan_container_reconcile`: each loop over sorted domain
--   ids is a recursion on that list, its local variables the record `Planning`.
--   `SaveContainers.Target` follows `target_snapshot`, which builds a card again from a plan. An
--   `OpaqueContainerError` is the value `opaque_error` of `Result`.
-- Saves: the functions at the end of services/saves.py and the classes of
--   core/models/savesync.py. `Saves.Reconcile` follows `_reconcile_plan`, the two functions of the
--   next baseline and the loop of `_reconcile_once` that fills the desired sides. `Saves.Diff`
--   follows the previews. A `SaveSelectionPolicy` is the function `group_for_path` that
--   reconciliation asks of it.
-- Cache: core/models/cache.py, infrastructure/repositories/cache.py, services/cache.py and
--   infrastructure/cache_coordination.py. `Cache.Repository` keeps the two tables, `Cache.Service`
--   follows `evict`, `_remove_files` and `_ensure_space`, and `Cache.Service.Pins` `pin` and `unpin`,
--   with the disk, the catalogue and the locks as the record `Ports`. `Cache.Coordination` follows
--   `CacheStorageCoordinator` and `ReservationLease` on the table `cache_reservations`;
--   `Cache.Coordination.Steps` is the step relation of the processes that share the cache. `admit` goes
--   by phases there, one for each number that `_fits` reads, and the other processes move in between.
-- Downloads: core/models/download.py and `DownloadRepository` of
--   infrastructure/repositories/download.py. `Downloads.Repository` has a function for each call;
--   the table is the list of its rows, and a statement that breaks the primary key or the unique
--   index of infrastructure/database.py is `none`. `Downloads.Manager` follows
--   `DownloadManagerService` of services/download_manager.py: its fields are a record, a call of the
--   browser is a function, and the worker is cut into the sections between two of its locks;
--   `Downloads.Manager.Steps` is the step relation of both. `Downloads.Partials` follows its two
--   calls that remove partial data.
-- MemoryCards: infrastructure/ps1_memory_card.py, the adapter that the planner reads and writes raw
--   PlayStation cards with. `MemoryCards.Chain` follows `_parse_chain`, `MemoryCards.Card` `_parse`,
--   `MemoryCards.Write` `_write_chain` and `_mark_deleted`, and `MemoryCards.Adapter` the calls of
--   the adapter. A card is the list of its bytes, each a native number.
-- SaveJournal: infrastructure/savesync_journal.py, the journal of the mutations of the remote saves.
--   The store is the file as it parses; `SaveJournal.load_or_reset` and `SaveJournal.append_mutations`
--   follow the functions of that name. A `SaveSyncError` and a `TypeError` are values of `Outcome`.
-- Capabilities: core/capabilities.py, the policy that guards operations by the operating mode.
-- The reconciliation of plain save files leaves the files of a memory card to the planner of
-- containers; both fill the same desired sides. Downloads ask the coordinator for admission.
--
-- How the code is translated: a `dict` is the list of its entries in insertion order, by the laws of
-- `Base.Dict`; a `set` is a list with no repetition; `sorted` is an insertion sort by code points,
-- of `Base.Keys`. Sizes are native numbers without a bound, as Python's integers. Every loop is a
-- recursion on a list, but for the `while` of `_parse_chain`, which has fuel: 16 rounds, one more than
-- a card has data blocks, since no block is visited twice. Times are native numbers where a decision or a row needs
-- them; logging and labels of progress are left out.
--
-- A release between two reads of an admission is left out of the step relation: there the code may
-- exceed the limit. The foreign key of a download is checked where its row is inserted.
--
-- Not modelled: input and output, locks of the operating system, SQL, the adapter of
-- cards that are folders, the services that schedule the passes, and the user interfaces.
pub mod Base
pub mod SaveContainers
pub mod SaveJournal
pub mod Saves
pub mod Cache
pub mod Downloads
pub mod Capabilities
pub mod MemoryCards
