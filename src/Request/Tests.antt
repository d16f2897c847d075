-- ===== src/Request/Tests.antt =====
-- Concrete runs of kernel/src/request.rs.
use gen_os.Common.{◌≡◌, refl, none, u64_max}
use gen_os.Request.{allocate}

exhausted_test : (allocate (record { next = u64_max })).0 ≡ none
unfolding allocate
exhausted_test = refl
