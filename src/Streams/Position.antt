-- ===== src/Streams/Position.antt =====
-- Positions in a stream: `_position`, `STREAM_ID` and `_since` of python/oxbrook/_streams.py.
-- An id is "milliseconds-sequence"; a position is the pair, ordered first by milliseconds.
use oxbrook.Prelude.{ℕ, ◌≡◌, Bool, true, false, ◌&&◌, ◌||◌, arith, ltb, leb, ◌==◌}

pub record Position : Type 0 where
  pub ms : ℕ
  pub seq : ℕ

-- `p <= q` on the tuples
abbrev pub position_le : Position → Position → Bool
position_le p q = ltb p.ms q.ms || (p.ms == q.ms && leb p.seq q.seq)

-- `p > q`
abbrev pub position_gt : Position → Position → Bool
position_gt p q = ltb q.ms p.ms || (p.ms == q.ms && ltb q.seq p.seq)

pub position_gt-le : (p q : Position) → position_le p q ≡ false → position_gt p q ≡ true
position_gt-le p q h = ground arith

pub position_gt_trans :
    (p q r : Position) → position_gt p q ≡ true → position_gt q r ≡ true → position_gt p r ≡ true
position_gt_trans p q r h k = ground arith

pub position_gt_irrefl : (p : Position) → position_gt p p ≡ false
position_gt_irrefl p = ground arith
