-- ===== src/CrossCpu/Tests.antt =====
-- Two requests from CPU 0 to CPU 1.
use mathlib.Core.List.{Perm}
use miniss.Base.{ℕ, ◌≡◌, refl, ◌++◌, some, true, [], ◌∷◌}
use miniss.Spsc.{Spsc, list_spsc}
use miniss.Unbounded
use miniss.Unbounded.{capacity, batch}
use miniss.Unbounded.Fifo.{items}
use miniss.CrossCpu.{CrossCpuQueue, init, submit, flush_tx, Reach, here, next, submits, flushes_tx}
use miniss.CrossCpu.Items.{Reach-accounted}

abbrev requests : Spsc ℕ capacity
requests = list_spsc ℕ capacity

abbrev idle : CrossCpuQueue requests
idle = record {
  from = 0;
  to = 1;
  tx = record { queue_buffer = []; queue = [] };
  rx = record { queue_buffer = []; queue = [] };
  running = [];
  to_wakeups = 0;
  from_wakeups = 0;
  submitted = [];
  started = [];
  responded = [];
  completed = [];
}

abbrev buffered : CrossCpuQueue requests
buffered = record idle { tx = record { queue_buffer = 7 ∷ []; queue = [] }; submitted = 7 ∷ [] }

abbrev visible : CrossCpuQueue requests
visible = record idle {
  tx = record { queue_buffer = []; queue = 7 ∷ [] };
  to_wakeups = 1;
  submitted = 7 ∷ [];
}

buffered-Reach : Reach requests buffered
unfolding init Unbounded.init submit Unbounded.push
buffered-Reach = next (here 0 1) (submits 7 refl)

flushed : flush_tx requests 0 buffered ≡ some (visible, true)
unfolding flush_tx Unbounded.flush Unbounded.flush_loop
flushed = refl

visible-Reach : Reach requests visible
visible-Reach = next buffered-Reach (flushes_tx true flushed)

Reach-accounted_example :
    (visible.started ++ items requests visible.tx ≡ visible.submitted)
    × (visible.completed ++ items requests visible.rx ≡ visible.responded)
    × Perm visible.submitted (
        (visible.completed ++ items requests visible.rx)
        ++ (visible.running ++ items requests visible.tx))
Reach-accounted_example = Reach-accounted requests visible-Reach

abbrev two_buffered : CrossCpuQueue requests
two_buffered = record idle {
  tx = record { queue_buffer = 7 ∷ 8 ∷ []; queue = [] };
  submitted = 7 ∷ 8 ∷ [];
}

second : submit requests 0 8 buffered ≡ some two_buffered
unfolding submit Unbounded.push
second = refl
