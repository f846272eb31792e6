-- ===== src/Examples/Channel.antt =====
-- The theorems on channels and on the write buffer.
use wild_cat.Common.{ℕ, ◌+◌, ◌≤◌, ◌≡◌, some, arith}
use wild_cat.Ssd.Channel.{
  ChannelModel, Draining, nr_credit_entries, chmodel_init, chmodel_request, drain_credits,
}
use wild_cat.Ssd.Channel.Ring.{IsRing, chmodel_request-IsRing, drain_credits_ends}
use wild_cat.Ssd.Buffer.{Buffer, buffer_init, buffer_allocate}
use wild_cat.Ssd.Buffer.Account.{IsBalanced, Allocated, buffer_allocate-Allocated}

-- 800 MiB/s
abbrev channel : ChannelModel
channel = chmodel_init 800

channel-IsRing : IsRing channel
unfolding chmodel_init
channel-IsRing = record { head = omega arith; window = omega arith; credits = omega arith }

chmodel_request-IsRing_example :
    (target : ℕ) × (ch' : ChannelModel) × (chmodel_request channel 5000 9000 4096
      ≡ some (target, ch'))
    × IsRing ch'
    × (9000 ≤ target)
chmodel_request-IsRing_example =
    chmodel_request-IsRing channel 5000 9000 4096 channel-IsRing (omega arith)

abbrev demand : Draining
demand = record { credits = λ _. 3; slot = 2; remaining = 10; delay = 0 }

drain_credits_ends_example :
    drain_credits (nr_credit_entries + 5) 1 demand ≡ drain_credits nr_credit_entries 1 demand
drain_credits_ends_example = drain_credits_ends 5 1 demand (omega arith) (omega arith)

abbrev buffer : Buffer
buffer = buffer_init 8192

buffer-IsBalanced : IsBalanced buffer
unfolding buffer_init
buffer-IsBalanced = record { left = omega arith; fits = omega arith }

buffer_allocate-Allocated_example :
    (got : ℕ) × (buf' : Buffer) × (buffer_allocate buffer 4096 ≡ some (got, buf'))
    × Allocated buffer 4096 got buf'
unfolding buffer_init
buffer_allocate-Allocated_example =
    buffer_allocate-Allocated buffer 4096 buffer-IsBalanced (omega arith)
