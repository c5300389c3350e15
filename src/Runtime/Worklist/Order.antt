-- ===== src/Runtime/Worklist/Order.antt =====
-- The order in which `PopNext` takes the items.
use veritas.Common.{true, false, Bytes, ◌≡◌, arith}
use veritas.Common.Order.{bytes_lt_trans, bytes_lt-asym}
use veritas.Runtime.Worklist.{WorkItem, precedes}

pub precedes_trans :
    (a b c : Bytes × WorkItem) → precedes a b ≡ true → precedes b c ≡ true → precedes a c ≡ true
unfolding precedes
precedes_trans a b c h h' = let t = bytes_lt_trans a.0 b.0 c.0 in ground arith

pub precedes-asym : (a b : Bytes × WorkItem) → precedes a b ≡ true → precedes b a ≡ false
unfolding precedes
precedes-asym a b h = let t = bytes_lt-asym a.0 b.0 in ground arith
