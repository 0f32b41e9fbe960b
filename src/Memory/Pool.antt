-- ===== src/Memory/Pool.antt =====
-- AbstractDynamicMemPool of memory/abstract_dynamic_memory_pool.cc: allocators for each stream, the
-- map from addresses to buffers, the event bookkeeping and the statistics.
pub mod State
pub mod BlockSize
pub mod Device
pub mod Alloc
pub mod Free
pub mod Events
pub mod Statistics
pub mod Continuous
pub mod Part
pub mod Accounts
pub mod Laws
pub mod Sound
pub mod Bound
pub mod Enter
pub mod FreeSound
pub mod FreeOthers
pub mod WithEvents
pub mod RecordSound
pub mod EventSound
pub mod IdleSound
pub mod AllocSound
pub mod GetSound
pub mod TensorSound
pub mod FreeAccounts
pub mod FreeErrors
pub mod Tracked
pub mod BlockSizeLaws
mod Tests
mod SoundTests
