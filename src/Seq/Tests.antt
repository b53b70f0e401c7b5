-- ===== src/Seq/Tests.antt =====
-- Runs of pico_seq_compare of stack/pico_stack.c.
use picotcp.Base.{◌≡◌, refl, pos, negsuc}
use picotcp.Seq.{seq_compare}

-- A number behind the wrap is later than one in front of it.
wrapped : seq_compare 5 4294967290 ≡ pos 11
unfolding seq_compare
wrapped = refl

behind : seq_compare 4294967290 5 ≡ negsuc 10
unfolding seq_compare
behind = refl

-- Half the number space apart, the result has the sign of neither order: it is negative both ways.
half : seq_compare 2147483648 0 ≡ negsuc 2147483647
unfolding seq_compare
half = refl

half_back : seq_compare 0 2147483648 ≡ negsuc 2147483647
unfolding seq_compare
half_back = refl
