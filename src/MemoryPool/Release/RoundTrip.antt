-- ===== src/MemoryPool/Release/RoundTrip.antt =====
-- A chunk of proxy/memorypool.cpp that is taken and given back.
use proxy_for_distribution_s.MemoryPool.Blocks.{Blocks}
