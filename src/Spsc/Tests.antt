-- ===== src/Spsc/Tests.antt =====
-- The theorems on the queue of audio chunks at concrete inputs, and runs of the code.
use vlc_whisper.Common.{ℕ, ◌≡◌, ◌≤◌, refl, true, some, List, [], ◌∷◌, ◌++◌, arith, length}
use vlc_whisper.Spsc.{AudioChunk, blank_chunk, SpscQueue, create, push, pop}
use vlc_whisper.Spsc.Inv.{IsValid, contents}
use vlc_whisper.Spsc.Threads.{Access, produce, consume, start, run, total_us, threads_fifo}

abbrev chunk : ℕ → AudioChunk
chunk pts = record {
  start_pts_us = pts;
  duration_us = 20000;
  sample_rate = 16000;
  channels = 1;
  bytes = 0;
  pcm_data = [];
}

-- Room for two chunks; the ring has turned once.
abbrev two_chunks : SpscQueue
two_chunks = record {
  ring_buffer = chunk 3 ∷ blank_chunk ∷ chunk 2 ∷ [];
  capacity_chunks = 2;
  head = 1;
  tail = 2;
  audio_dropped_us = 7;
}

two_chunks-IsValid : IsValid two_chunks
two_chunks-IsValid = record { storage = refl; head_in = omega arith; tail_in = omega arith }

-- A full queue counts the chunk as dropped.
push_full : (push two_chunks (chunk 4)).1.audio_dropped_us ≡ 20007
unfolding push
push_full = refl

-- The oldest chunk comes first.
pop_oldest : (pop two_chunks).0 ≡ some (chunk 2)
unfolding pop
pop_oldest = refl

abbrev fresh : SpscQueue
fresh = record {
  ring_buffer = blank_chunk ∷ blank_chunk ∷ [];
  capacity_chunks = 1;
  head = 0;
  tail = 0;
  audio_dropped_us = 0;
}

fresh-made : create 1 true true ≡ some fresh
unfolding create
fresh-made = refl

-- A push, a pop that begins within it, and a push that finds the queue full.
abbrev schedule : List Access
schedule =
    produce (chunk 1)
    ∷ consume
    ∷ produce (chunk 1)
    ∷ produce (chunk 1)
    ∷ consume
    ∷ produce (chunk 2)
    ∷ consume
    ∷ consume
    ∷ []

threads_fifo_example :
    let m = run (start fresh) schedule in
    (m.pushed ≡ m.popped ++ contents m.queue)
    × (length (contents m.queue) ≤ 1)
    × (m.queue.audio_dropped_us ≡ total_us 0 m.refused)
threads_fifo_example = threads_fifo 1 fresh schedule fresh-made
