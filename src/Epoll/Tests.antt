-- ===== src/Epoll/Tests.antt =====
-- A CPU that sleeps, and then a write that is completed.
use miniss.Base.{ℕ, suc, ◌<◌, ◌≡◌, refl, pos, true, false, [], arith}
use miniss.FileIo
use miniss.FileIo.{IoEvent, pwrite, prepare, reap_io}
use miniss.Signal
use miniss.Signal.{SignalPoller, zero_word, is_zero}
use miniss.Idle
use miniss.Idle.{waiting}
use miniss.Loop.{LoopState, at_signals, at_rest, poll_signals, wakes}
use miniss.Epoll.{IoState, is_ready, complete}
use miniss.Epoll.Events.{events, Later, here, next, complete-never_blocks}

grows : (c : ℕ) → 0 < suc c
grows c = omega arith

abbrev fresh : IoState
fresh = record { file_io = FileIo.start (pos 3); completed = []; count = 0 }

abbrev no_signal : SignalPoller ℕ
no_signal = record { pending_signals = zero_word; signal_handlers = [] }

abbrev polled : LoopState (events suc grows)
polled =
    record (poll_signals (events suc grows) 0 no_signal (record {
      source = fresh;
      thread = Idle.start;
      stage = at_signals;
      active = false;
      woken = 0;
    })) { stage = at_rest }

abbrev asleep : LoopState (events suc grows)
asleep = record polled { thread = Idle.wait (Idle.check (Idle.mask polled.thread)) }

abbrev written : IoEvent
written = record { request = (1, prepare pwrite (pos 5) 0 4096 512); res = pos 512 }

abbrev completed : LoopState (events suc grows)
completed = record asleep { source = complete suc written asleep.source }

abbrev awake : LoopState (events suc grows)
awake = record completed { thread = Idle.return_wait completed.thread }

awake-Later : Later suc grows completed awake
unfolding Idle.start Idle.mask Idle.check Idle.wait Signal.dispatch_all poll_signals is_zero
awake-Later = next here (wakes refl refl)

complete-never_blocks_example : is_ready awake.source ≡ true
complete-never_blocks_example = complete-never_blocks suc grows written asleep awake-Later
