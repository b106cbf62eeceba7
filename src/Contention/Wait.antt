-- ===== src/Contention/Wait.antt =====
-- A sampled wait for a lock, from the lock hook to the unlock hook of the same thread.
use contention_prof.Contention.{Site, MutexAndSite}

abbrev with_csite : MutexAndSite → Site → MutexAndSite
with_csite e site = record e { csite = site }
